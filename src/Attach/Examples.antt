-- ===== src/Attach/Examples.antt =====
-- Connections to a node, and the theorems at them.
use indigo_matter.Prelude.{List, ◌≤◌, true, false, [], ◌∷◌, pos, ◌≡◌, refl, arith}
use indigo_matter.Python.{int, null, int_of, truthy}
use indigo_matter.Python.Table.{text_key}
use indigo_matter.Attach.{
  Event, ending_of, answered, accepted, broken, Meeting, handshake, replace_all, owed_removals,
  pending_replace_all, halted, err_mass_removal_refused, empties, reattaches, discharges, run,
  publishes,
}
use indigo_matter.Attach.Debt.{IsOwing, run_empties-owed}
use indigo_matter.Attach.Halts.{is_mass_halt, handshake_owing, handshake_disjoint}

-- The list was swapped while the node was down.
abbrev swapped : Meeting
swapped = record {
  same_version = true;
  glitch = false;
  specs = ("indigo-2", pos 2) ∷ [];
  specs_again = ("indigo-2", pos 2) ∷ [];
  declared = 1;
  live = ("indigo-1", pos 1) ∷ [];
  first_answer = accepted;
  second_answer = accepted;
  meanwhile = 0;
  recorded = true;
}

handshake_disjoint_example : handshake swapped null ≡ halted err_mass_removal_refused
unfolding publishes owed_removals pending_replace_all truthy
handshake_disjoint_example =
    handshake_disjoint swapped null refl (omega arith) refl ((refl, refl), tt) refl refl

-- The same with a debt of five that the first read misses.
handshake_owing_example :
    is_mass_halt (handshake (record swapped { glitch = true }) (int (pos 5))) ≡ false
unfolding owed_removals pending_replace_all truthy int_of
handshake_owing_example =
    handshake_owing (record swapped { glitch = true }) (int (pos 5)) (omega arith) refl refl

-- An un-export of five whose attach breaks, and a re-attach without the intent.
abbrev lingering : List Event
lingering = empties 5 true broken ∷ reattaches accepted ∷ []

run_empties-owed_example :
    (5 ≤ owed_removals (run lingering null))
    × (replace_all (owed_removals (run lingering null)) (("indigo-2", pos 2) ∷ []) 1 ≡ true)
    × (handshake swapped (run lingering null)
        ≡ ending_of true (answered swapped.live swapped.specs true swapped.first_answer))
unfolding pending_replace_all truthy IsOwing discharges
run_empties-owed_example =
    run_empties-owed 5 null (pos 0) broken (reattaches accepted ∷ []) (("indigo-2", pos 2) ∷ []) 1
      swapped (omega arith) refl (refl, (refl, tt)) refl refl
