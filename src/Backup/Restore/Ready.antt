-- ===== src/Backup/Restore/Ready.antt =====
-- fabric_backup.py: the calls of a restore in which each daemon is down before its storage is
-- touched, and the calls that keep this.
use indigo_matter.Prelude.{
  if◌then◌else◌, Bool, true, false, not, Option, none, some, List, [], ◌∷◌, ◌≡◌, refl, arith, inl,
  inr, Bool-cases,
}
use indigo_matter.Backup.{
  Daemon, controller, bridge, controller_aside, bridge_aside, controller_undone, bridge_failed,
  bridge_back, controller_failed, controller_back, Rename, Call, stopped, dead, started, is_success,
  renamed, extracted, World, Host, rename,
}
use indigo_matter.Backup.Stages.{restart_if_alive, BridgePlan}

-- A daemon is down where its last `stop()` returned True, or its control denied that it is alive, and
-- no `start()` of it returned True since.
abbrev pub is_down : Daemon → List Call → Bool
is_down d [] = false
is_down controller (stopped controller ∷ calls) = true
is_down bridge (stopped bridge ∷ calls) = true
is_down controller (dead controller ∷ calls) = true
is_down bridge (dead bridge ∷ calls) = true
is_down controller (started controller answer ∷ calls) =
    let before = is_down controller calls in if is_success answer then false else before
is_down bridge (started bridge answer ∷ calls) =
    let before = is_down bridge calls in if is_success answer then false else before
is_down d (c ∷ calls) = is_down d calls

abbrev pub owner : Rename → Daemon
owner controller_aside = controller
owner controller_undone = controller
owner controller_failed = controller
owner controller_back = controller
owner bridge_aside = bridge
owner bridge_failed = bridge
owner bridge_back = bridge

-- At each rename and each extraction its daemon, and the controller, are down.
abbrev pub IsGuarded : List Call → Type 0
IsGuarded [] = Unit
IsGuarded (renamed r ∷ calls) =
    (is_down (owner r) calls ≡ true) × (is_down controller calls ≡ true) × IsGuarded calls
IsGuarded (extracted d ∷ calls) =
    (is_down d calls ≡ true) × (is_down controller calls ≡ true) × IsGuarded calls
IsGuarded (c ∷ calls) = IsGuarded calls

-- The bridge is down, where a plan is to touch it.
abbrev pub is_bridge_ready : Option BridgePlan → List Call → Bool
is_bridge_ready none calls = true
is_bridge_ready (some p) calls = is_down bridge calls

abbrev pub IsReady : Option BridgePlan → World → Type 0
IsReady plan w =
    (is_down controller w.calls ≡ true) × (is_bridge_ready plan w.calls ≡ true) × IsGuarded w.calls

pub rename_calls :
    (h : Host) (r : Rename) (w v : World) → rename h r w ≡ some v → v.calls ≡ renamed r ∷ w.calls
unfolding rename
rename_calls h controller_aside w v e = ground arith
rename_calls h controller_undone w v e = ground arith
rename_calls h controller_failed w v e = ground arith
rename_calls h controller_back w v e = ground arith
rename_calls h bridge_aside w v e = ground arith
rename_calls h bridge_failed w v e = ground arith
rename_calls h bridge_back w v e = ground arith

-- A call that brings no daemon up.
abbrev pub keeps_down : Call → Bool
keeps_down (started d answer) = not (is_success answer)
keeps_down _ = true

pub is_down-cons :
    (d : Daemon) (c : Call) (calls : List Call)
    → keeps_down c ≡ true
    → is_down d calls ≡ true
    → is_down d (c ∷ calls) ≡ true
is_down-cons controller (stopped controller) calls q k = refl
is_down-cons controller (stopped bridge) calls q k = k
is_down-cons controller (dead controller) calls q k = refl
is_down-cons controller (dead bridge) calls q k = k
is_down-cons controller (started controller a) calls q k = ground arith
is_down-cons controller (started bridge a) calls q k = k
is_down-cons controller (renamed r) calls q k = k
is_down-cons controller (extracted d) calls q k = k
is_down-cons bridge (stopped controller) calls q k = k
is_down-cons bridge (stopped bridge) calls q k = refl
is_down-cons bridge (dead controller) calls q k = k
is_down-cons bridge (dead bridge) calls q k = refl
is_down-cons bridge (started controller a) calls q k = k
is_down-cons bridge (started bridge a) calls q k = ground arith
is_down-cons bridge (renamed r) calls q k = k
is_down-cons bridge (extracted d) calls q k = k

pub is_bridge_ready-cons :
    (plan : Option BridgePlan) (c : Call) (calls : List Call)
    → keeps_down c ≡ true
    → is_bridge_ready plan calls ≡ true
    → is_bridge_ready plan (c ∷ calls) ≡ true
is_bridge_ready-cons none c calls q k = refl
is_bridge_ready-cons (some p) c calls q k = is_down-cons bridge c calls q k

-- One more call keeps all, if it is guarded itself and brings no daemon up.
pub cons-IsReady :
    (plan : Option BridgePlan) (c : Call) (w v : World)
    → v.calls ≡ c ∷ w.calls
    → keeps_down c ≡ true
    → IsGuarded (c ∷ w.calls)
    → IsReady plan w
    → IsReady plan v
cons-IsReady plan c w v e q guarded k =
    rw e
      (is_down-cons controller c w.calls q k.0, is_bridge_ready-cons plan c w.calls q k.1, guarded)

pub rename-IsReady :
    (h : Host) (plan : Option BridgePlan) (r : Rename) (w v : World)
    → rename h r w ≡ some v
    → is_down (owner r) w.calls ≡ true
    → IsReady plan w
    → IsReady plan v
rename-IsReady h plan r w v e down k =
    cons-IsReady plan (renamed r) w v (rename_calls h r w v e) refl (down, k.0, k.2) k

pub restart_if_alive-IsGuarded :
    (h : Host) (p : Option BridgePlan) (w : World)
    → IsGuarded w.calls
    → IsGuarded (restart_if_alive h p w).calls
unfolding restart_if_alive
restart_if_alive-IsGuarded h none w k = k
restart_if_alive-IsGuarded h (some p) w k = elim (Bool-cases p.was_alive) [
  | inl e ↦ rw e k
  | inr e ↦ rw e k
]
