-- ===== src/Service/Full.antt =====
-- `new_full` of node/src/service.rs: the network, and the tasks for the node's role.
use Prim.Native.String.{◌++◌ as str_append}
use lunes_nightly.Prelude.{
  ℕ, Bool, false, not, String, Option, none, some, Result, ok, err, [], ◌∷◌, ◌++◌, Action,
  if◌then◌else◌,
}
use lunes_nightly.Service.{
  Libraries, network_built, offchain_workers_built, tasks_spawned, aura_started, aura_spawned,
  voter_made, voter_spawned, network_started, is_some, Configuration, Start, pure, raise, ◌>>=◌,
  ◌>>◌, noting, doing, calling, PartialComponents, new_partial,
}

-- `remote_keystore`, over the type of keystores.
abbrev pub remote_keystore : {K : Type 0} → String → Result String K
remote_keystore url = err "Remote Keystore not supported."

module _ (l : Libraries) where
  open l use {World, ServiceError, service_other, panicked, Keystore, Future, Parts, Link, Network}

  -- `StartAuraParams`, with what the proposer factory is made of.
  pub record StartAuraParams : Type 0 where
    pub slot_duration : ℕ
    pub components : PartialComponents l
    pub network : Network
    pub force_authoring : Bool
    -- `block_proposal_slot_portion`
    pub proposal_portion : ℕ × ℕ

  -- `GrandpaParams` with its `Config`; the gossip duration is in milliseconds.
  pub record GrandpaParams : Type 0 where
    pub gossip_duration : ℕ
    pub justification_period : ℕ
    pub name : String
    pub observer_enabled : Bool
    pub keystore : Option Keystore
    pub authority : Bool
    pub protocol_name : String
    pub components : PartialComponents l
    pub network : Network

  -- The two protocols that a start hands over to the consensus libraries.
  pub record Consensus : Type 0 where
    pub start_aura : StartAuraParams → Action World ServiceError Future
    pub run_grandpa_voter : GrandpaParams → Action World ServiceError Future

  -- The `if let` on the remote keystore.
  unfoldable pub hook_keystore : Option String → Parts → Start l Parts
  hook_keystore none parts = pure parts
  hook_keystore (some url) parts = elim (remote_keystore url) [
    | ok k ↦ pure (l.set_remote_keystore k parts)
    | err e ↦ raise (
        service_other
          (str_append "Error hooking up remote keystore for " (str_append url (str_append ": " e))))
  ]

  -- `client.block_hash(0).ok().flatten().expect(...)`
  unfoldable pub genesis_hash : Parts → Start l ℕ
  genesis_hash parts = calling λ w. elim (l.block_hash_zero parts w) [
    | none ↦ (err (panicked "Genesis block exists; qed"), w)
    | some hash ↦ (ok hash, w)
  ]

  unfoldable pub start_offchain_workers :
      Configuration l → PartialComponents l → Network → Start l (Unit {0})
  start_offchain_workers config c network =
      if config.offchain_worker
      then doing offchain_workers_built (l.build_offchain_workers config.settings c.parts network)
      else pure tt

  module _ (consensus : Consensus) where
    unfoldable pub start_authoring :
        Configuration l → PartialComponents l → Network → Start l (Unit {0})
    start_authoring config c network =
        if config.authority
        then (do
          slot_duration ← calling (l.slot_duration c.parts)
          aura ← noting (aura_started config.force_authoring) (
              consensus.start_aura (record {
                slot_duration = slot_duration;
                components = c;
                network = network;
                force_authoring = config.force_authoring;
                proposal_portion = (2, 3);
              }))
          doing aura_spawned
              (l.spawn_essential_blocking c.parts "aura" (some "block-authoring") aura))
        else pure tt

    abbrev pub voter_keystore : Bool → Parts → Option Keystore
    voter_keystore authority parts = if authority then some (l.sync_keystore parts) else none

    unfoldable pub start_voter :
        Configuration l → PartialComponents l → Network → String → Start l (Unit {0})
    start_voter config c network protocol_name =
        if not config.disable_grandpa
        then (do
          let keystore = voter_keystore config.authority c.parts
          voter ← noting (voter_made (is_some keystore)) (
              consensus.run_grandpa_voter (record {
                gossip_duration = 333;
                justification_period = 512;
                name = config.node_name;
                observer_enabled = false;
                keystore = keystore;
                authority = config.authority;
                protocol_name = protocol_name;
                components = c;
                network = network;
              }))
          doing voter_spawned (l.spawn_essential_blocking c.parts "grandpa-voter" none voter))
        else pure tt

    -- `new_full` up to the start of the network.
    unfoldable pub prepare : Configuration l → Start l (Parts × Network)
    prepare config = do
      built ← new_partial l config
      parts ← hook_keystore config.keystore_remote built.parts
      let c = record built { parts = parts }
      hash ← genesis_hash parts
      let protocol_name = l.protocol_standard_name hash config.settings
      network ← noting network_built (
          l.build_network config.settings
            (config.extra_sets ++ l.grandpa_peers_set_config protocol_name ∷ []) parts c.pool
            c.import_queue (l.warp_sync_provider parts c.link))
      start_offchain_workers config c network
      noting tasks_spawned (l.spawn_tasks config.settings parts c.pool network c.telemetry)
      start_authoring config c network
      start_voter config c network protocol_name
      pure (parts, network)

    -- `new_full`, which returns the task manager among the parts.
    unfoldable pub new_full : Configuration l → Start l Parts
    new_full config = do
      prepared ← prepare config
      doing network_started (l.start_network prepared.1)
      pure prepared.0
