-- ===== src/Tui/Deleted.antt =====
-- When the deletions of internal/tui/delete.go end the program.
use runbooks.Prelude.{
  ℕ, ◌+◌, ◌<◌, String, ◌≡◌, refl, ap, ◌∙◌, eqb, Bool, true, false, snoc, Option, none, some, List,
  [], ◌∷◌, arith,
}
use runbooks.Tui.Delete.{
  DeleteModel, count, quit_if_done, record_deletion, update, delete_cmd, run_deletions,
  deletion_list,
}

-- No deletion was answered with an error.
unfoldable pub all_deleted : List (String × Option String) → Bool
all_deleted [] = true
all_deleted ((name, none) ∷ rest) = all_deleted rest
all_deleted ((name, some e) ∷ rest) = false

count-snoc : {A : Type 0} (xs : List A) (x : A) → count (snoc xs x) ≡ count xs + 1
count-snoc [] x = refl
count-snoc (y ∷ ys) x = ap (λ n. 1 + n) (count-snoc ys x) ∙ omega arith

differ : (a b : ℕ) → a < b → eqb a b ≡ false
differ a b h = ground arith

same : (a b : ℕ) → a ≡ b → eqb a b ≡ true
same a b h = ground arith

-- With fewer answers left than deletions missing, the program does not end by itself.
too_few :
    (rest : List (String × Option String)) (m : DeleteModel)
    → count m.deleted + count rest < count m.to_delete
    → (run_deletions rest m).quit ≡ m.quit
unfolding run_deletions update delete_cmd
too_few [] m few = refl
too_few ((name, none) ∷ rest) m few =
    let grown = count-snoc m.deleted name in
    too_few rest (quit_if_done (record_deletion name none m)) (omega (arith, few, grown))
    ∙ rw (differ (count (snoc m.deleted name)) (count m.to_delete) (omega (arith, few, grown))) refl
too_few ((name, some e) ∷ rest) m few =
    too_few rest (quit_if_done (record_deletion name (some e) m)) (omega (arith, few))
    ∙ rw (differ (count m.deleted) (count m.to_delete) (omega (arith, few))) refl

enough :
    (rest : List (String × Option String)) (m : DeleteModel)
    → 0 < count rest
    → count m.deleted + count rest ≡ count m.to_delete
    → m.quit ≡ false
    → (run_deletions rest m).quit ≡ all_deleted rest
unfolding run_deletions update delete_cmd all_deleted
enough [] m left whole running = absurd (omega (arith, left))
enough ((name, some e) ∷ rest) m left whole running =
    too_few rest (quit_if_done (record_deletion name (some e) m)) (omega (arith, whole))
    ∙ rw (differ (count m.deleted) (count m.to_delete) (omega (arith, whole))) running
enough ((name, none) ∷ []) m left whole running =
    let grown = count-snoc m.deleted name in
    rw (same (count (snoc m.deleted name)) (count m.to_delete) (omega (arith, whole, grown))) refl
enough ((name, none) ∷ r ∷ rest) m left whole running =
    let grown = count-snoc m.deleted name in
    enough (r ∷ rest) (quit_if_done (record_deletion name none m)) (omega arith)
      (omega (arith, whole, grown))
      (rw (differ (count (snoc m.deleted name)) (count m.to_delete) (omega (arith, whole, grown)))
        running)

-- Once every object of a list that is not empty has been asked to be deleted, and no key was pressed,
-- the program has ended exactly if every deletion was answered without an error.
pub run_deletions-quit :
    (items : List String) (answers : List (String × Option String)) (m : DeleteModel)
    → m.deleted ≡ []
    → m.quit ≡ false
    → 0 < count items
    → count answers ≡ count items
    → (run_deletions answers (update (deletion_list items) m).0).quit ≡ all_deleted answers
unfolding update
run_deletions-quit items answers m fresh running some_items one_each =
    enough answers (record m { to_delete = items }) (omega (arith, some_items, one_each))
      (omega (arith, ap count fresh, one_each)) running
