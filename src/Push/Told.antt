-- ===== src/Push/Told.antt =====
-- export_handlers.py and export_bridge.py: the tolerances bound what the node may be behind.
use indigo_matter.Prelude.{
  ℕ, ◌≤◌, String, true, false, Option, none, some, List, [], ◌∷◌, ◌≡◌, refl, ap, arith, inl, inr,
  ◌-ℤ◌, abs, eq_ℤ→eq, str_eq, eq_iff, any, All, Bool-cases, Option-cases, if◌then◌else◌,
}
use indigo_matter.Python.Table
use indigo_matter.Python.Table.{
  Table, text_key, IsUnique, lookup-insert, lookup-remove, insert-IsUnique, remove-IsUnique,
}
use indigo_matter.Push.{
  Value, number, text, States, ExportHandler, differs, is_beyond, is_changed, changed, has_key,
  diff_from, updated, evicted, note_pushed, Export, received, pushed, sent, device_updated, Event,
  specified, reads, sends, removed, step, run,
}

-- The two values are within a tolerance of each other, or the same where there is none.
pub IsNear : Option ℕ → Value → Value → Type 0
IsNear (some tolerance) (number a) (number b) = abs (b -ℤ a) ≤ tolerance
IsNear none (number a) (number b) = a ≡ b
IsNear t (text s) (text u) = s ≡ u
IsNear t p v = ⊥

is_changed_missing : (h : ExportHandler) (k : String) (v : Value) → is_changed h k none v ≡ true
unfolding is_changed
is_changed_missing h k v = refl

lookup_same :
    {V : Type 0} (i j : String) (t : Table String V)
    → str_eq i j ≡ true
    → Table.lookup i t ≡ Table.lookup j t
lookup_same i j t e = ap (λ (k : String). Table.lookup k t) ((eq_iff i j).0 e)

-- The first of two readings of a key.
abbrev or_else : Option Value → Option Value → Option Value
or_else none second = second
or_else (some v) second = some v

lookup-updated :
    (k : String) (states snapshot : States)
    → IsUnique states
    → Table.lookup k (updated snapshot states)
      ≡ or_else (Table.lookup k states) (Table.lookup k snapshot)
unfolding updated Table.lookup
lookup-updated k [] snapshot u = refl
lookup-updated k ((j, v) ∷ rest) snapshot u = ground (
  arith,
  lookup-updated k rest (Table.insert j v snapshot) u.1,
  lookup-insert j k v snapshot,
  lookup_same j k rest,
)

updated-IsUnique :
    (states snapshot : States) → IsUnique snapshot → IsUnique (updated snapshot states)
unfolding updated
updated-IsUnique [] snapshot u = u
updated-IsUnique ((j, v) ∷ rest) snapshot u =
    updated-IsUnique rest (Table.insert j v snapshot) (insert-IsUnique j v snapshot u)

evicted-IsUnique :
    (keys : List String) (states snapshot : States)
    → IsUnique snapshot
    → IsUnique (evicted keys states snapshot)
unfolding evicted
evicted-IsUnique [] states snapshot u = u
evicted-IsUnique (key ∷ keys) states snapshot u = elim (Bool-cases (has_key states key)) [
  | inl e ↦ rw e (evicted-IsUnique keys states snapshot u)
  | inr e ↦ rw e (remove-IsUnique key _ (evicted-IsUnique keys states snapshot u))
]

-- What is left after an eviction was there before.
lookup-evicted :
    (k : String) (p : Value) (keys : List String) (states snapshot : States)
    → IsUnique snapshot
    → Table.lookup k (evicted keys states snapshot) ≡ some p
    → Table.lookup k snapshot ≡ some p
unfolding evicted
lookup-evicted k p [] states snapshot u e = e
lookup-evicted k p (key ∷ keys) states snapshot u e = ground (
  arith,
  lookup-remove key k (evicted keys states snapshot) (evicted-IsUnique keys states snapshot u),
  lookup-evicted k p keys states snapshot u,
)

-- The wire carries a key of the reading exactly where it changed.
abbrev carried : ExportHandler → String → States → Option Value → Option Value
carried h k before none = none
carried h k before (some v) = if is_changed h k (Table.lookup k before) v then some v else none

changed_absent :
    (h : ExportHandler) (k : String) (before after : States)
    → Table.lookup k after ≡ none
    → Table.lookup k (changed h before after) ≡ none
unfolding changed Table.lookup
changed_absent h k before [] e = refl
changed_absent h k before ((j, v) ∷ rest) e = ground (arith, changed_absent h k before rest)

same_change :
    (h : ExportHandler) (i j : String) (before : States) (v : Value)
    → str_eq i j ≡ true
    → is_changed h i (Table.lookup i before) v ≡ is_changed h j (Table.lookup j before) v
same_change h i j before v e =
    ap (λ (k : String). is_changed h k (Table.lookup k before) v) ((eq_iff i j).0 e)

lookup-changed :
    (h : ExportHandler) (k : String) (before after : States)
    → IsUnique after
    → Table.lookup k (changed h before after) ≡ carried h k before (Table.lookup k after)
unfolding changed Table.lookup
lookup-changed h k before [] u = refl
lookup-changed h k before ((j, v) ∷ rest) u = ground (
  arith,
  changed_absent h k before rest,
  lookup_same j k rest,
  same_change h j k before v,
  lookup-changed h k before rest u.1,
)

changed-IsUnique :
    (h : ExportHandler) (before after : States) → IsUnique after → IsUnique (changed h before after)
unfolding changed
changed-IsUnique h before [] u = tt
changed-IsUnique h before ((j, v) ∷ rest) u =
    elim (Bool-cases (is_changed h j (Table.lookup j before) v)) [
      | inl e ↦ rw e (changed_absent h j before rest u.0, changed-IsUnique h before rest u.1)
      | inr e ↦ rw e (changed-IsUnique h before rest u.1)
    ]

-- A value that has not changed is near the one before; one that has just been told is near itself.
unchanged-IsNear :
    (h : ExportHandler) (k : String) (p v : Value)
    → is_changed h k (some p) v ≡ false
    → IsNear (Table.lookup k h.tolerances) p v
unfolding is_changed is_beyond differs IsNear
unchanged-IsNear h k (number a) (number b) e = ground (arith, eq_ℤ→eq a b)
unchanged-IsNear h k (number a) (text u) e = ground arith
unchanged-IsNear h k (text s) (number b) e = ground arith
unchanged-IsNear h k (text s) (text u) e = ground (arith, eq_iff s u)

IsNear-refl : (t : Option ℕ) (v : Value) → IsNear t v v
unfolding IsNear
IsNear-refl none (number a) = refl
IsNear-refl (some t) (number a) = ground arith
IsNear-refl none (text s) = refl
IsNear-refl (some t) (text s) = refl

-- What the snapshot holds is what the node was told.
record IsTold (x : Export) : Type 0 where
  told :
      (k : String) (p : Value) → Table.lookup k x.snapshot ≡ some p → Table.lookup k x.node ≡ some p
  unique : IsUnique x.snapshot

note_pushed-IsUnique :
    (h : ExportHandler) (states snapshot : States)
    → IsUnique snapshot
    → IsUnique (note_pushed h states snapshot)
unfolding note_pushed
note_pushed-IsUnique h states snapshot u =
    let merged = updated-IsUnique states snapshot u in
    elim (Bool-cases (any (has_key states) h.mode_alternating_keys)) [
      | inl e ↦ rw e (evicted-IsUnique h.mode_alternating_keys states _ merged)
      | inr e ↦ rw e merged
    ]

lookup-note_pushed :
    (h : ExportHandler) (states snapshot : States) (k : String) (p : Value)
    → IsUnique snapshot
    → Table.lookup k (note_pushed h states snapshot) ≡ some p
    → Table.lookup k (updated snapshot states) ≡ some p
unfolding note_pushed
lookup-note_pushed h states snapshot k p u e = ground (
  arith,
  lookup-evicted k p h.mode_alternating_keys states (updated snapshot states)
      (updated-IsUnique states snapshot u),
)

pushed-IsTold :
    (h : ExportHandler) (states : States) (x : Export)
    → IsUnique states
    → IsTold x
    → IsTold (pushed h true states x)
unfolding pushed received
pushed-IsTold h states x u k = record {
  told = λ j p e. ground (
    arith,
    lookup-note_pushed h states x.snapshot j p k.unique e,
    lookup-updated j states x.snapshot u,
    lookup-updated j states x.node u,
    k.told j p,
  );
  unique = note_pushed-IsUnique h states x.snapshot k.unique;
}

sent-IsTold :
    (h : ExportHandler) (states : States) (x : Export)
    → IsUnique states
    → IsTold x
    → IsTold (sent h true states x)
unfolding sent
sent-IsTold h [] x u k = k
sent-IsTold h (s ∷ states) x u k = pushed-IsTold h (s ∷ states) x u k

lookup-sent :
    (h : ExportHandler) (states : States) (x : Export) (k : String)
    → IsUnique states
    → Table.lookup k (sent h true states x).node
      ≡ or_else (Table.lookup k states) (Table.lookup k x.node)
unfolding sent pushed received Table.lookup
lookup-sent h [] x k u = refl
lookup-sent h (s ∷ states) x k u = lookup-updated k (s ∷ states) x.node u

-- The node is told, of a map of states that has its keys once, as a `dict` does.
abbrev pub IsDelivered : Event → Type 0
IsDelivered (specified delivered states) = (delivered ≡ true) × IsUnique states
IsDelivered (reads delivered states) = (delivered ≡ true) × IsUnique states
IsDelivered (sends delivered states) = (delivered ≡ true) × IsUnique states
IsDelivered removed = Unit

-- A spec that is delivered tells the node what the snapshot holds, whatever went before.
specified-IsTold :
    (h : ExportHandler) (states : States) (x : Export)
    → IsUnique states
    → IsTold (step h (specified true states) x)
unfolding step received
specified-IsTold h states x u = record {
  told = λ j p e. rw (lookup-updated j states x.node u, e) refl;
  unique = u;
}

step-IsTold :
    (h : ExportHandler) (e : Event) (x : Export) → IsDelivered e → IsTold x → IsTold (step h e x)
unfolding step device_updated diff_from Table.lookup
step-IsTold h (specified delivered states) x (d, u) k = rw d (specified-IsTold h states x u)
step-IsTold h (reads delivered after) x (d, u) k =
    rw d (sent-IsTold h (changed h x.snapshot after) x (changed-IsUnique h x.snapshot after u) k)
step-IsTold h (sends delivered states) x (d, u) k = rw d (pushed-IsTold h states x u k)
step-IsTold h removed x u k = record { told = λ j p e. e; unique = tt }

run-IsTold :
    (h : ExportHandler) (events : List Event) (x : Export)
    → All IsDelivered events
    → IsTold x
    → IsTold (run h events x)
unfolding run
run-IsTold h [] x u k = k
run-IsTold h (e ∷ events) x u k = run-IsTold h events (step h e x) u.1 (step-IsTold h e x u.0 k)

abbrev pub unknown : Export
unknown = record { snapshot = []; node = [] }

-- What the node holds of a key that a reading answers.
read-IsNear :
    (h : ExportHandler) (after : States) (x : Export) (k : String) (v : Value)
    → IsUnique after
    → IsTold x
    → Table.lookup k after ≡ some v
    → (p : Value) × (Table.lookup k (step h (reads true after) x).node ≡ some p)
      × IsNear (Table.lookup k h.tolerances) p v
unfolding step device_updated diff_from
read-IsNear h after x k v u t e =
    let wire = lookup-changed h k x.snapshot after u in
    let held =
      lookup-sent h (changed h x.snapshot after) x k (changed-IsUnique h x.snapshot after u) in
    elim (Bool-cases (is_changed h k (Table.lookup k x.snapshot) v)) [
      | inl new ↦ (v, ground (arith, wire, held), IsNear-refl (Table.lookup k h.tolerances) v)
      | inr old ↦ elim (Option-cases (Table.lookup k x.snapshot)) [
        | inl missing ↦ absurd (ground (arith, is_changed_missing h k v))
        | inr (p, before) ↦ (
          p,
          ground (arith, wire, held, t.told k p before),
          unchanged-IsNear h k p v (rw before at old),
        )
      ]
    ]

-- A spec that is delivered ends what dropped pushes left behind, and from then on the tolerance bounds
-- what the node is behind: after any past, with pushes dropped as may be, a spec that reaches the node,
-- and any specs, readings, commands, corrections and removals of which it is told, a reading of a live
-- device whose push is not dropped leaves the node, for each key that it answers, with a value within
-- the tolerance of the key, or the same value where it has none. Each map of states since the spec has
-- its keys once.
pub reading-IsNear :
    (h : ExportHandler) (past : List Event) (states : States) (events : List Event) (after : States)
    (k : String) (v : Value)
    → IsUnique states
    → All IsDelivered events
    → IsUnique after
    → Table.lookup k after ≡ some v
    → (p : Value) × (Table.lookup k
          (step h
            (reads true after)
            (run h events (step h (specified true states) (run h past unknown)))).node
        ≡ some p)
      × IsNear (Table.lookup k h.tolerances) p v
reading-IsNear h past states events after k v w delivered u e =
    read-IsNear h after (run h events (step h (specified true states) (run h past unknown))) k v u
      (run-IsTold h events (step h (specified true states) (run h past unknown)) delivered
        (specified-IsTold h states (run h past unknown) w))
      e
