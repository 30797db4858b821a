-- ===== src/Service/Success.antt =====
-- When a start of the service (node/src/service.rs) succeeds.
use mathlib.Core.Path.{subst}
use lunes_nightly.Prelude.{
  ℕ, ◌≡◌, refl, ap, ◌∙◌, Bool, true, false, not, Option, none, some, Result, ok, err, List, [], ◌∷◌,
  ◌++◌, Action, if◌then◌else◌, String, arith,
}
use lunes_nightly.Service.{
  Libraries, Event, network_started, filled, Configuration, Node, Step, Reporter, make_telemetry,
  spawn_telemetry, build_partial, new_partial, ◌>>=◌, noting, calling, pure, raise, is_some,
}
use lunes_nightly.Service.Full.{
  Consensus, hook_keystore, genesis_hash, start_offchain_workers, start_authoring, start_voter,
  prepare, new_full, StartAuraParams, GrandpaParams,
}
use lunes_nightly.Service.Order.{full_events, new_full_order, Started}

-- A library's call that succeeds in every world.
abbrev pub Works : {W E A : Type 0} → Action W E A → Type 0
Works {W = W} {A = A} m = (w : W) → (a : A) × (w' : W) × (m w ≡ (ok a, w'))

-- Every call of a library succeeds, and the client has a genesis block.
pub record IsWorking (l : Libraries) (consensus : Consensus l) : Type 0 where
  pub new_worker : Works l.new_worker
  pub new_full_parts :
      (settings : l.Settings) (telemetry : Option l.Telemetry) (executor : l.Executor)
      → Works (l.new_full_parts settings telemetry executor)
  pub block_hash_zero :
      (parts : l.Parts) (w : l.World) → (hash : ℕ) × (l.block_hash_zero parts w ≡ some hash)
  pub new_pool :
      (settings : l.Settings) (authority : Bool) (parts : l.Parts)
      → Works (l.new_pool settings authority parts)
  pub grandpa_block_import :
      (parts : l.Parts) (chain : l.SelectChain) (telemetry : Option l.Telemetry)
      → Works (l.grandpa_block_import parts chain telemetry)
  pub slot_duration : (parts : l.Parts) → Works (l.slot_duration parts)
  pub aura_import_queue :
      (block_import : l.BlockImport) (parts : l.Parts) (slot : ℕ) (telemetry : Option l.Telemetry)
      → Works (l.aura_import_queue block_import parts slot telemetry)
  pub build_network :
      (settings : l.Settings) (sets : List l.SetConfig) (parts : l.Parts) (pool : l.Pool)
      (queue : l.ImportQueue) (warp : l.WarpSync)
      → Works (l.build_network settings sets parts pool queue warp)
  pub spawn_tasks :
      (settings : l.Settings) (parts : l.Parts) (pool : l.Pool) (network : l.Network)
      (telemetry : Option l.Telemetry)
      → Works (l.spawn_tasks settings parts pool network telemetry)
  pub start_aura : (params : StartAuraParams l) → Works (consensus.start_aura params)
  pub run_grandpa_voter : (params : GrandpaParams l) → Works (consensus.run_grandpa_voter params)

module _ {W E : Type 0} where
  -- A step that succeeds whatever has been done before.
  unfoldable pub Succeeds : {A : Type 0} → Step W E A → Type 0
  Succeeds {A = A} m = (s : Node W) → (a : A) × (s' : Node W) × (m s ≡ (ok a, s'))

  Succeeds-bind :
      {A B : Type 0} (m : Step W E A) (f : A → Step W E B)
      → Succeeds m
      → ((a : A) → Succeeds (f a))
      → Succeeds (m >>= f)
  unfolding Succeeds ◌>>=◌
  Succeeds-bind {A = A} m f h g s =
      let (a, s', e) = h s in
      let (b, s'', e') = g a s' in
      (
        b,
        s'',
        ap (λ (out : Result E A × Node W). elim out.0 [ ok a ↦ f a out.1 | err x ↦ (err x, out.1) ])
              e
            ∙ e',
      )

  Succeeds-noting : {A : Type 0} (e : Event) (m : Action W E A) → Works m → Succeeds (noting e m)
  unfolding Succeeds noting
  Succeeds-noting {A = A} e m works s =
      let (a, w, h) = works s.world in
      (
        a,
        record { world = w; events = s.events ++ e ∷ [] },
        ap
            (λ (out : Result E A × W). elim out.0 as (λ _. Result E A × Node W) [
              | ok a ↦ (ok a, record { world = out.1; events = s.events ++ e ∷ [] })
              | err x ↦ (err x, record s { world = out.1 })
            ])
            h,
      )

  Succeeds-calling : {A : Type 0} (m : Action W E A) → Works m → Succeeds (calling m)
  unfolding Succeeds calling
  Succeeds-calling {A = A} m works s =
      let (a, w, h) = works s.world in
      (
        a,
        record s { world = w },
        ap (λ (out : Result E A × W). (out.0, record s { world = out.1 })) h,
      )

module _ (W E : Type 0) where
  Succeeds-pure : {A : Type 0} (a : A) → Succeeds {W = W} {E = E} (pure a)
  unfolding Succeeds pure
  Succeeds-pure a s = (a, s, refl)

  Succeeds-when :
      (asked : Bool) (m : Step W E (Unit {0}))
      → Succeeds m
      → Succeeds (if asked then m else pure tt)
  Succeeds-when true m h = h
  Succeeds-when false m h = Succeeds-pure tt

  Succeeds-admitted :
      {A : Type 0} (refused : Bool) (e : E) (m : Step W E A)
      → refused ≡ false
      → Succeeds m
      → Succeeds (if refused then raise e else m)
  Succeeds-admitted true e m h works = absurd (ground (arith, h))
  Succeeds-admitted false e m h works = works

module _ (l : Libraries) (consensus : Consensus l) (works : IsWorking l consensus) where
  open l use {World, ServiceError, Parts}

  make_telemetry-Succeeds :
      (endpoints : Option (List String)) → Succeeds (make_telemetry l endpoints)
  unfolding make_telemetry
  make_telemetry-Succeeds none = Succeeds-pure World ServiceError _
  make_telemetry-Succeeds (some endpoints) =
      Succeeds-bind _ _ (Succeeds-noting _ _ works.new_worker)
        (λ worker. Succeeds-pure World ServiceError _)

  spawn_telemetry-Succeeds :
      (parts : Parts) (reporter : Option (Reporter l)) → Succeeds (spawn_telemetry l parts reporter)
  unfolding spawn_telemetry
  spawn_telemetry-Succeeds parts none = Succeeds-pure World ServiceError _
  spawn_telemetry-Succeeds parts (some (worker, telemetry)) =
      Succeeds-bind _ _ (Succeeds-noting _ _ (λ w. (tt, _, refl)))
        (λ _. Succeeds-pure World ServiceError _)

  build_partial-Succeeds : (config : Configuration l) → Succeeds (build_partial l config)
  unfolding build_partial
  build_partial-Succeeds config =
      Succeeds-bind _ _ (make_telemetry-Succeeds (filled l config.telemetry_endpoints)) λ reporter.
        Succeeds-bind _ _ (Succeeds-noting _ _ (works.new_full_parts _ _ _)) λ parts.
          Succeeds-bind _ _ (spawn_telemetry-Succeeds parts reporter) λ telemetry.
            Succeeds-bind _ _ (Succeeds-noting _ _ (works.new_pool _ _ parts)) λ pool.
              Succeeds-bind _ _ (Succeeds-noting _ _ (works.grandpa_block_import parts _ _))
                λ imports.
                  Succeeds-bind _ _ (Succeeds-calling _ (works.slot_duration parts)) λ slot.
                    Succeeds-bind _ _ (Succeeds-noting _ _ (works.aura_import_queue _ parts slot _))
                      λ queue. Succeeds-pure World ServiceError _

  new_partial-Succeeds :
      (config : Configuration l) → config.keystore_remote ≡ none → Succeeds (new_partial l config)
  unfolding new_partial
  new_partial-Succeeds config h =
      Succeeds-admitted World ServiceError (is_some config.keystore_remote) _ _ (rw h refl)
        (build_partial-Succeeds config)

  hook_keystore-Succeeds :
      (remote : Option String) (parts : Parts)
      → remote ≡ none
      → Succeeds (hook_keystore l remote parts)
  unfolding hook_keystore
  hook_keystore-Succeeds none parts h = Succeeds-pure World ServiceError parts
  hook_keystore-Succeeds (some url) parts h = absurd (ground (arith, h))

  genesis_hash-Works : (parts : Parts) → Succeeds (genesis_hash l parts)
  unfolding genesis_hash
  genesis_hash-Works parts =
      Succeeds-calling _ λ w. let (hash, h) = works.block_hash_zero parts w in (hash, w, rw h refl)

  prepare-Succeeds :
      (config : Configuration l)
      → config.keystore_remote ≡ none
      → Succeeds (prepare l consensus config)
  unfolding prepare start_offchain_workers start_authoring start_voter
  prepare-Succeeds config h = Succeeds-bind _ _ (new_partial-Succeeds config h) λ built.
      Succeeds-bind _ _ (hook_keystore-Succeeds _ built.parts h) λ parts.
        Succeeds-bind _ _ (genesis_hash-Works parts) λ hash.
          Succeeds-bind _ _ (Succeeds-noting _ _ (works.build_network _ _ parts _ _ _)) λ network.
            Succeeds-bind _ _
              (Succeeds-when World ServiceError config.offchain_worker _
                (Succeeds-noting _ _ (λ w. (tt, _, refl))))
              λ _.
                Succeeds-bind _ _ (Succeeds-noting _ _ (works.spawn_tasks _ parts _ network _)) λ _.
                  Succeeds-bind _ _
                    (Succeeds-when World ServiceError config.authority _ (
                      Succeeds-bind _ _ (Succeeds-calling _ (works.slot_duration parts)) λ slot.
                        Succeeds-bind _ _ (Succeeds-noting _ _ (works.start_aura _))
                          λ aura. Succeeds-noting _ _ (λ w. (tt, _, refl))))
                    λ _.
                      Succeeds-bind _ _
                        (Succeeds-when World ServiceError (not config.disable_grandpa) _ (
                          Succeeds-bind _ _ (Succeeds-noting _ _ (works.run_grandpa_voter _))
                            λ voter. Succeeds-noting _ _ (λ w. (tt, _, refl))))
                        λ _. Succeeds-pure World ServiceError _

  -- Without a remote keystore, on libraries whose calls succeed and with a genesis block, every
  -- start succeeds, and it has done just what the configuration asks for, in the order of the
  -- list `full_events`, before it started the network.
  pub new_full_succeeds :
      (config : Configuration l) (s : Node World)
      → config.keystore_remote ≡ none
      → (parts : Parts) × (s' : Node World) × (new_full l consensus config s ≡ (ok parts, s'))
        × (s'.events ≡ s.events ++ (full_events l config ++ (network_started ∷ [])))
  unfolding new_full Succeeds
  new_full_succeeds config s h =
      let (parts, s', e) =
        Succeeds-bind _ _ (prepare-Succeeds config h)
          (λ prepared.
            Succeeds-bind _ _ (Succeeds-noting _ _ (λ w. (tt, _, refl)))
              (λ _. Succeeds-pure World ServiceError prepared.0))
          s in
      (
        parts,
        s',
        e,
        subst (λ out. Started l consensus s.events (full_events l config) out) e
            (new_full_order l consensus config s),
      )
