-- ===== src/Replace.antt =====
-- node_replace.py: replacing a node by another one, device by device.
pub mod Partition
pub mod Safe
pub mod Examples
use Prim.Native.String
use Prim.Native.Nat.{Ordering}
use indigo_matter.Prelude.{
  ℕ, String, Bool, true, false, ◌&&◌, ◌||◌, not, Option, none, some, List, [], ◌∷◌, ◌++◌, ℤ, pos,
  eq_ℤ, ltb_ℤ, str_eq, any, is_some, if◌then◌else◌,
}
use indigo_matter.Python.{str, Fields}
use indigo_matter.Python.Dict
use indigo_matter.Python.Table
use indigo_matter.Python.Table.{Table, int_key}
use indigo_matter.Commission.{NodeId, number}
use indigo_matter.Commission.Codes.{node_id_to_str}
use indigo_matter.Exports.Identity.{str_int}

pub record DeviceRef : Type 0 where
  pub dev_id : ℤ
  pub endpoint_id : ℤ
  pub type_id : String
  pub name : String

pub record ReplacementPlan : Type 0 where
  pub old_node : ℤ
  pub new_node : ℤ
  pub pairs : List (DeviceRef × DeviceRef)
  pub unmatched_old : List DeviceRef
  pub unmatched_new : List DeviceRef
  pub extra_deletes : List DeviceRef

-- `_key(a) == _key(b)`
unfoldable pub same_key : DeviceRef → DeviceRef → Bool
same_key a b = eq_ℤ a.endpoint_id b.endpoint_id && str_eq a.type_id b.type_id

abbrev pub ltb_text : String → String → Bool
ltb_text s t = elim (String.compare s t) [ Ordering.lt ↦ true | _ ↦ false ]

-- `(_key(a), a.dev_id) < (_key(b), b.dev_id)`
unfoldable pub is_before : DeviceRef → DeviceRef → Bool
is_before a b =
    if ltb_ℤ a.endpoint_id b.endpoint_id
    then true
    else if ltb_ℤ b.endpoint_id a.endpoint_id
    then false
    else if ltb_text a.type_id b.type_id
    then true
    else if ltb_text b.type_id a.type_id
    then false
    else ltb_ℤ a.dev_id b.dev_id

pub insert_ref : DeviceRef → List DeviceRef → List DeviceRef
insert_ref a [] = a ∷ []
insert_ref a (b ∷ rest) =
    let later = b ∷ insert_ref a rest in if is_before b a then later else a ∷ b ∷ rest

pub sorted : List DeviceRef → List DeviceRef
unfolding insert_ref
sorted [] = []
sorted (a ∷ rest) = insert_ref a (sorted rest)

-- The first ref of that key, and the others. The candidates of a key, in `new_by_key`, are the refs of
-- that key in the sorted list, in its order.
pub pop_candidate : DeviceRef → List DeviceRef → Option (DeviceRef × List DeviceRef)
pop_candidate old [] = none
pop_candidate old (new ∷ rest) =
    let later = pop_candidate old rest in
    if same_key old new
    then some (new, rest)
    else elim later [ none ↦ none | some (found, others) ↦ some (found, new ∷ others) ]

-- The pairs, and what is left over on each side.
pub record Matched : Type 0 where
  pub pairs : List (DeviceRef × DeviceRef)
  pub left_old : List DeviceRef
  pub left_new : List DeviceRef

pub matched : List DeviceRef → List DeviceRef → Matched
matched [] new_refs = record { pairs = []; left_old = []; left_new = new_refs }
matched (old ∷ rest) new_refs = elim (pop_candidate old new_refs) [
  | none ↦ let m = matched rest new_refs in record m { left_old = old ∷ m.left_old }
  | some (new, others) ↦ let m = matched rest others in record m { pairs = (old, new) ∷ m.pairs }
]

unfoldable pub is_node_device : DeviceRef → Bool
is_node_device ref = eq_ℤ ref.endpoint_id (pos 0) && str_eq ref.type_id "matterNode"

pub keep_refs : (DeviceRef → Bool) → List DeviceRef → List DeviceRef
keep_refs p [] = []
keep_refs p (ref ∷ rest) = let others = keep_refs p rest in if p ref then ref ∷ others else others

unfoldable pub plan_replacement : ℤ → List DeviceRef → ℤ → List DeviceRef → Bool → ReplacementPlan
plan_replacement old_node old_refs new_node new_refs drop_new_node_device =
    let m = matched (sorted old_refs) (sorted new_refs) in
    record {
      old_node = old_node;
      new_node = new_node;
      pairs = m.pairs;
      unmatched_old = m.left_old;
      unmatched_new =
          if drop_new_node_device
          then keep_refs (λ r. not (is_node_device r)) m.left_new
          else m.left_new;
      extra_deletes = if drop_new_node_device then keep_refs is_node_device m.left_new else [];
    }

abbrev pub is_empty {ℓ} : {A : Type ℓ} → List A → Bool
is_empty [] = true
is_empty (_ ∷ _) = false

unfoldable pub shape_matches : ReplacementPlan → Bool
shape_matches plan = is_empty plan.unmatched_old && is_empty plan.unmatched_new

-- Why a replacement must not run; the texts that are shown are made from these.
pub data Reason : Type 0 where
  same_node no_pairs on_both_nodes shapes_differ : Reason
  exported referenced unchecked : DeviceRef → Reason

abbrev pub news : List (DeviceRef × DeviceRef) → List DeviceRef
news [] = []
news ((_, new) ∷ rest) = new ∷ news rest

abbrev pub olds : List (DeviceRef × DeviceRef) → List DeviceRef
olds [] = []
olds ((old, _) ∷ rest) = old ∷ olds rest

-- Is a device of one list also in the other?
abbrev pub has_id : List DeviceRef → ℤ → Bool
has_id refs dev_id = any (λ r. eq_ℤ r.dev_id dev_id) refs

abbrev pub share_device : List DeviceRef → List DeviceRef → Bool
share_device refs others = any (λ r. has_id others r.dev_id) refs

abbrev pub is_referenced : Table ℤ (List String) → DeviceRef → Bool
is_referenced references ref = elim (Table.lookup ref.dev_id references) [
  | none ↦ false
  | some referrers ↦ not (is_empty referrers)
]

abbrev pub is_unchecked : Table ℤ String → DeviceRef → Bool
is_unchecked reference_errors ref = elim (Table.lookup ref.dev_id reference_errors) [
  | none ↦ false
  | some error ↦ not (str_eq error "")
]

pub reasons_for : (DeviceRef → Bool) → (DeviceRef → Reason) → List DeviceRef → List Reason
reasons_for p reason [] = []
reasons_for p reason (ref ∷ rest) =
    let others = reasons_for p reason rest in if p ref then reason ref ∷ others else others

abbrev pub when : Bool → Reason → List Reason
when true reason = reason ∷ []
when false reason = []

-- The new devices that would be deleted.
abbrev pub deleted : ReplacementPlan → List DeviceRef
deleted plan = news plan.pairs ++ plan.extra_deletes

unfoldable pub refusal_reasons :
    ReplacementPlan → Bool → List ℤ → Table ℤ (List String) → Table ℤ String → List Reason
refusal_reasons plan allow_mismatch exported_ids references reference_errors =
    when (eq_ℤ plan.old_node plan.new_node) same_node
    ++ (when (is_empty plan.pairs) no_pairs
        ++ (when
              (share_device (olds plan.pairs ++ plan.unmatched_old)
                (news plan.pairs ++ (plan.unmatched_new ++ plan.extra_deletes)))
              on_both_nodes
            ++ (when (not (shape_matches plan) && not allow_mismatch) shapes_differ
                ++ (reasons_for (λ r. any (eq_ℤ r.dev_id) exported_ids) exported (deleted plan)
                    ++ (reasons_for (is_referenced references) referenced (deleted plan)
                        ++ reasons_for (is_unchecked reference_errors) unchecked (deleted plan))))))

unfoldable pub rebound_props : Fields → ℤ → Option String → Fields
rebound_props old_props new_node software_version =
    let out =
      Dict.insert "address" (str (node_id_to_str (number new_node)))
        (Dict.insert "nodeId" (str (str_int new_node "")) old_props) in
    elim software_version [
      | none ↦ out
      | some version ↦ Dict.insert "softwareVersion" (str version) out
    ]
