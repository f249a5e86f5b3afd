-- ===== src/Audit/Listing.antt =====
-- What `list` and `deleteOlderThan` of the audit log return.
use Prim.Native.Nat.{min, max}
use mathlib.Core.List.{Perm}
use openclaw_managed_agents.Prelude.{
  ap, ◌∙◌, ◌++◌, get_or, ℕ, zero, suc, ◌+◌, ◌≤◌, ◌≡◌, refl, true, false, List, [], ◌∷◌, arith, leb,
  length, take, filter,
}
use openclaw_managed_agents.Prelude.Sort
use openclaw_managed_agents.Prelude.Sort.{sort-perm, sort-IsSorted, IsSorted}
use openclaw_managed_agents.Types.Vault.{AuditRecord}
use openclaw_managed_agents.Audit.{
  AuditStore, Filters, selects, newest_first, page_size, list, delete_older, delete_older_than,
}

newest_first_total : (a b : AuditRecord) → newest_first a b ≡ false → newest_first b a ≡ true
newest_first_total a b h = ground arith

-- What `slice(0, n)` leaves out.
abbrev rest_after : ℕ → List AuditRecord → List AuditRecord
rest_after zero xs = xs
rest_after (suc n) [] = []
rest_after (suc n) (x ∷ xs) = rest_after n xs

take-rest : (n : ℕ) (xs : List AuditRecord) → take n xs ++ rest_after n xs ≡ xs
take-rest zero xs = refl
take-rest (suc n) [] = refl
take-rest (suc n) (x ∷ xs) = ap (λ l. x ∷ l) (take-rest n xs)

length-take : (n : ℕ) (xs : List AuditRecord) → length (take n xs) ≡ min n (length xs)
length-take zero xs = ground arith
length-take (suc n) [] = ground arith
length-take (suc n) (x ∷ xs) = ground (arith, length-take n xs)

insert-length :
    (e : AuditRecord) (xs : List AuditRecord)
    → length (Sort.insert newest_first e xs) ≡ suc (length xs)
insert-length e [] = refl
insert-length e (x ∷ xs) = ground (arith, insert-length e xs)

length-sort : (xs : List AuditRecord) → length (Sort.sort newest_first xs) ≡ length xs
length-sort [] = refl
length-sort (x ∷ xs) = insert-length x (Sort.sort newest_first xs) ∙ ap suc (length-sort xs)

-- A listing is the start of the records that pass the filters, sorted with the newest first: as many as were asked
-- for, at least 1 and at most 1000, 100 if nothing was asked, or all of them if they are fewer. Every record that
-- is left out comes after those that are listed.
pub list_lem :
    (s : AuditStore) (f : Filters)
    → (rest : List AuditRecord) × Perm (list s f ++ rest) (filter (selects f) s.events)
      × IsSorted newest_first (list s f ++ rest)
      × (length (list s f)
          ≡ min (min (max (get_or f.limit 100) 1) 1000) (length (filter (selects f) s.events)))
unfolding list
list_lem s f =
    let n = page_size f.limit in
    let chosen = filter (selects f) s.events in
    let sorted = Sort.sort newest_first chosen in
    (
      rest_after n sorted,
      rw (take-rest n sorted) (sort-perm newest_first chosen),
      rw (take-rest n sorted) (sort-IsSorted newest_first newest_first_total chosen),
      length-take n sorted ∙ ap (min n) (length-sort chosen),
    )

length-delete_older : (es : List AuditRecord) (ts : ℕ) → length (delete_older es ts) ≤ length es
unfolding delete_older
length-delete_older [] ts = omega arith
length-delete_older (e ∷ es) ts = ground (arith, length-delete_older es ts)

delete_older_lem :
    (es : List AuditRecord) (ts : ℕ) → delete_older es ts ≡ filter (λ e. leb ts e.ts) es
unfolding delete_older
delete_older_lem [] ts = refl
delete_older_lem (e ∷ es) ts = ground (arith, delete_older_lem es ts)

-- Purging keeps exactly the records from the cut-off on, in their order, and reports the number that
-- it removed.
pub delete_older_than_lem :
    (s : AuditStore) (ts : ℕ)
    → ((delete_older_than s ts).1.events ≡ filter (λ e. leb ts e.ts) s.events)
      × ((delete_older_than s ts).0 + length (delete_older_than s ts).1.events ≡ length s.events)
unfolding delete_older_than
delete_older_than_lem s ts =
    (delete_older_lem s.events ts, omega (arith, length-delete_older s.events ts))
