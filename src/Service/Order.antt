-- ===== src/Service/Order.antt =====
-- The order in which `new_full` of node/src/service.rs starts a node, and what a failed start has
-- done.
use mathlib.Core.List.{append_assoc}
use lunes_nightly.Prelude.{
  ◌≡◌, refl, ap, ◌∙◌, Bool, true, false, not, Option, none, some, Result, ok, err, List, [], ◌∷◌,
  ◌++◌, String,
}
use lunes_nightly.Service.{
  Libraries, Event, network_built, offchain_workers_built, tasks_spawned, aura_started,
  aura_spawned, voter_made, voter_spawned, network_started, is_some, Configuration, Node,
  PartialComponents, ◌>>=◌, noting, pure, ◌>>◌,
}
use lunes_nightly.Service.Full.{
  Consensus, hook_keystore, genesis_hash, start_offchain_workers, start_authoring, start_voter,
  prepare, new_full, voter_keystore,
}
use lunes_nightly.Service.Trace.{
  Added, Adds, Adds-bind, Adds-pure, Adds-noting, Adds-calling, Adds-raise, Adds-noting_eq,
  bind_err,
}
use lunes_nightly.Service.Start.{
  when, partial_events, new_partial-Adds, new_partial_remote, Adds-when,
}

module _ (l : Libraries) where
  open l use {World, ServiceError, service_other, Parts, Network}

  -- All that a start does before the network starts: the parts, the network, off-chain workers
  -- where they are enabled, the tasks, block authoring on an authority, and finality where it is
  -- not disabled, with a keystore on an authority alone.
  abbrev pub full_events : Configuration l → List Event
  full_events config =
      partial_events l config
      ++ (network_built
          ∷ (when config.offchain_worker (offchain_workers_built ∷ [])
              ++ (tasks_spawned
                  ∷ (when config.authority (aura_started config.force_authoring ∷ aura_spawned ∷ [])
                      ++ (when (not config.disable_grandpa)
                            (voter_made config.authority ∷ voter_spawned ∷ [])
                          ++ [])))))

  hook_keystore-Adds : (url : Option String) (parts : Parts) → Adds (hook_keystore l url parts) []
  unfolding hook_keystore
  hook_keystore-Adds none parts = Adds-pure World ServiceError parts
  hook_keystore-Adds (some url) parts = Adds-raise World ServiceError Parts _ _

  start_offchain_workers-Adds :
      (config : Configuration l) (c : PartialComponents l) (network : Network)
      → Adds
          (start_offchain_workers l config c network)
          (when config.offchain_worker (offchain_workers_built ∷ []))
  unfolding start_offchain_workers
  start_offchain_workers-Adds config c network =
      Adds-when config.offchain_worker _ _ (Adds-noting _ _)

  module _ (consensus : Consensus l) where
    start_authoring-Adds :
        (config : Configuration l) (c : PartialComponents l) (network : Network)
        → Adds
            (start_authoring l consensus config c network)
            (when config.authority (aura_started config.force_authoring ∷ aura_spawned ∷ []))
    unfolding start_authoring
    start_authoring-Adds config c network = Adds-when config.authority _ _ (
        Adds-bind _ _ [] _ (Adds-calling _) (λ slot.
          Adds-bind _ _ (aura_started config.force_authoring ∷ []) _ (Adds-noting _ _)
            (λ aura. Adds-noting _ _)))

    voter_keystore_lem :
        (authority : Bool) (parts : Parts)
        → is_some (voter_keystore l consensus authority parts) ≡ authority
    voter_keystore_lem true parts = refl
    voter_keystore_lem false parts = refl

    start_voter-Adds :
        (config : Configuration l) (c : PartialComponents l) (network : Network) (name : String)
        → Adds
            (start_voter l consensus config c network name)
            (when (not config.disable_grandpa) (voter_made config.authority ∷ voter_spawned ∷ []))
    unfolding start_voter
    start_voter-Adds config c network name = Adds-when (not config.disable_grandpa) _ _ (
        Adds-bind _ _ (voter_made config.authority ∷ []) _
          (Adds-noting_eq _ _ _ (ap voter_made (voter_keystore_lem config.authority c.parts)))
          (λ voter. Adds-noting _ _))

    prepare-Adds :
        (config : Configuration l) → Adds (prepare l consensus config) (full_events config)
    unfolding prepare genesis_hash
    prepare-Adds config =
        Adds-bind _ _ (partial_events l config) _ (new_partial-Adds l config) (λ built.
          Adds-bind _ _ [] _ (hook_keystore-Adds config.keystore_remote built.parts) (λ parts.
            Adds-bind _ _ [] _ (Adds-calling _) (λ hash.
              Adds-bind _ _ (network_built ∷ []) _ (Adds-noting _ _) (λ network.
                Adds-bind _ _ (when config.offchain_worker (offchain_workers_built ∷ [])) _
                  (start_offchain_workers-Adds config _ network)
                  (λ _. Adds-bind _ _ (tasks_spawned ∷ []) _ (Adds-noting _ _) (λ _.
                    Adds-bind _ _ _ _ (start_authoring-Adds config _ network) (λ _.
                      Adds-bind _ _ _ [] (start_voter-Adds config _ network _)
                        (λ _. Adds-pure World ServiceError _))))))))

    pub new_full-Adds :
        (config : Configuration l)
        → Adds (new_full l consensus config) (full_events config ++ (network_started ∷ []))
    unfolding new_full
    new_full-Adds config = Adds-bind _ _ (full_events config) _ (prepare-Adds config) (λ prepared.
        Adds-bind _ _ (network_started ∷ []) [] (Adds-noting _ _)
          (λ _. Adds-pure World ServiceError _))

    -- What is known of a start, by its result.
    abbrev pub Started : List Event → List Event → Result ServiceError Parts × Node World → Type 0
    Started before events (ok parts, s) = s.events ≡ before ++ (events ++ (network_started ∷ []))
    Started before events (err e, s) =
        (done : List Event) × (rest : List Event) × (done ++ rest ≡ events)
        × (s.events ≡ before ++ done)

    Started-prepared :
        (before events : List Event) (out : Result ServiceError (Parts × Network) × Node World)
        → Added {A = Parts × Network} before events out
        → Started before events (elim out.0 [
          | ok prepared ↦
              (do
                noting network_started λ w. (ok tt, l.start_network prepared.1 w)
                pure prepared.0)
                out.1
          | err e ↦ (err e, out.1)
        ])
    unfolding noting pure ◌>>=◌
    Started-prepared before events (ok prepared, s) h =
        ap (λ t. t ++ (network_started ∷ [])) h ∙ append_assoc before events (network_started ∷ [])
    Started-prepared before events (err e, s) h = h

    -- A start that succeeds has done just what the configuration asks for, in the order of the
    -- list `full_events`, and the network was started last; one that fails has done some first
    -- part of that list, and has not started the network.
    pub new_full_order :
        (config : Configuration l) (s : Node World)
        → Started s.events (full_events config) (new_full l consensus config s)
    unfolding new_full ◌>>=◌ noting pure Adds
    new_full_order config s =
        Started-prepared s.events (full_events config) (prepare l consensus config s)
          (prepare-Adds config s)

    -- With a remote keystore a start fails with "Remote Keystores are not supported." before it
    -- has done anything, so the other error text for such keystores is never reached.
    new_full_remote :
        (config : Configuration l) (url : String) (s : Node World)
        → config.keystore_remote ≡ some url
        → new_full l consensus config s
          ≡ (err (service_other "Remote Keystores are not supported."), s)
    unfolding new_full prepare
    new_full_remote config url s h =
        bind_err _ _ _ s s (bind_err _ _ _ s s (new_partial_remote l config url s h))
