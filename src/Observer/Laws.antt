-- ===== src/Observer/Laws.antt =====
-- The observers of each object after each operation.
use y_rpc.Common.{
  ℕ, suc, ◌≡◌, ◌⊎◌, inl, inr, refl, ◌&&◌, true, List, [], ◌∷◌, ◌++◌, ◌==◌, Option, none, some,
  Option-cases, Bool-cases, pos, negsuc, arith, if◌then◌else◌,
}
use mathlib.Core.Option
use y_rpc.Container.{lookup, put, IsSorted}
use y_rpc.Container.Order.{same_key, string_key}
use y_rpc.Container.Laws.{same_key→eq, lookup-put, lookup-erase}
use y_rpc.Observer.{
  ObserverHash, remove_all, find, remove, insert, remove_fd, insert_fd, remove_everywhere,
}

-- How often a connection stands in a list of observers.
unfoldable pub count : ℕ → List ℕ → ℕ
count fd [] = 0
count fd (x ∷ xs) = if x == fd then suc (count fd xs) else count fd xs

-- How often a connection observes an object; none if there is no such object.
unfoldable pub observes : List ℕ → ℕ → ObserverHash → Option ℕ
observes key fd m = elim (lookup key m) [ none ↦ none | some fds ↦ some (count fd fds) ]

count-remove_all :
    (fd fdp : ℕ) (fds : List ℕ)
    → count fd (remove_all fdp fds) ≡ (if fd == fdp then 0 else count fd fds)
unfolding count remove_all
count-remove_all fd fdp [] = ground arith
count-remove_all fd fdp (x ∷ xs) = ground (arith, count-remove_all fd fdp xs)

count-snoc :
    (fd fdp : ℕ) (fds : List ℕ)
    → count fd (fds ++ (fdp ∷ [])) ≡ (if fd == fdp then suc (count fd fds) else count fd fds)
unfolding count
count-snoc fd fdp [] = ground arith
count-snoc fd fdp (x ∷ xs) = ground (arith, count-snoc fd fdp xs)

lookup-remove_everywhere :
    (key : List ℕ) (fdp : ℕ) (m : ObserverHash)
    → lookup key (remove_everywhere fdp m)
      ≡ elim (lookup key m) [ none ↦ none | some fds ↦ some (remove_all fdp fds) ]
unfolding lookup remove_everywhere
lookup-remove_everywhere key fdp [] = refl
lookup-remove_everywhere key fdp ((j, fds) ∷ m) = ground (arith, lookup-remove_everywhere key fdp m)

observes-put :
    (q key : List ℕ) (fd : ℕ) (fds : List ℕ) (m : ObserverHash)
    → observes q fd (put key fds m)
      ≡ (if same_key q key then some (count fd fds) else observes q fd m)
unfolding observes
observes-put q key fd fds m = rw (lookup-put q key fds m, observes) (ground arith)

observes_same :
    (q key : List ℕ) (fd : ℕ) (fds : List ℕ) (m : ObserverHash)
    → same_key q key ≡ true
    → lookup key m ≡ some fds
    → observes q fd m ≡ some (count fd fds)
unfolding observes
observes_same q key fd fds m same e = rw (same_key→eq q key same, e, observes)

-- After `remove(fdp)` the connection observes nothing any more; every other connection observes
-- what it did, and every object is still there.
pub observes-remove_everywhere :
    (key : List ℕ) (fd fdp : ℕ) (m : ObserverHash)
    → observes key fd (remove_everywhere fdp m)
      ≡ (if fd == fdp then Option.map (λ n. 0) (observes key fd m) else observes key fd m)
unfolding observes
observes-remove_everywhere key fd fdp m = elim (Option-cases (lookup key m)) [
  | inl e ↦ ground (arith, lookup-remove_everywhere key fdp m)
  | inr (fds, e) ↦ ground (arith, lookup-remove_everywhere key fdp m, count-remove_all fd fdp fds)
]

-- `insert(key, fdp)` fails, and changes nothing, exactly if there is no such object; else the
-- connection stands once more in its list, and every other count is as it was.
pub insert_fd_lem :
    (key : List ℕ) (fdp : ℕ) (m : ObserverHash)
    → ((find key m ≡ none) × (insert_fd key fdp m ≡ (negsuc 0, m)))
      ⊎ ((fds : List ℕ) × (find key m ≡ some fds)
          × ((insert_fd key fdp m).0 ≡ pos 0)
          × ((q : List ℕ) (fd : ℕ)
              → observes q fd (insert_fd key fdp m).1 ≡ (
                  if same_key q key && fd == fdp
                  then some (suc (count fd fds))
                  else observes q fd m)))
unfolding find insert_fd
insert_fd_lem key fdp m = elim (Option-cases (lookup key m)) [
  | inl e ↦ inl (e, rw (e, insert_fd))
  | inr (fds, e) ↦ inr (
    fds,
    e,
    rw (e, insert_fd),
    λ q fd.
        rw (e, insert_fd)
          (ground (
            arith,
            observes-put q key fd (fds ++ (fdp ∷ [])) m,
            count-snoc fd fdp fds,
            observes_same q key fd fds m,
          )),
  )
]

observes_absent :
    (q key : List ℕ) (fd fdp : ℕ) (m : ObserverHash)
    → lookup key m ≡ none
    → observes q fd m ≡ (
        if same_key q key && fd == fdp
        then Option.map (λ n. 0) (observes q fd m)
        else observes q fd m)
unfolding observes
observes_absent q key fd fdp m e = elim (Bool-cases (same_key q key)) [
  | inl same ↦ (let alike = same_key→eq q key same in ground arith)
  | inr other ↦ ground arith
]

-- `remove(key, fdp)` takes every occurrence of the connection out of the list of the object, and
-- leaves every other count as it was.
pub observes-remove_fd :
    (q key : List ℕ) (fd fdp : ℕ) (m : ObserverHash)
    → observes q fd (remove_fd key fdp m) ≡ (
        if same_key q key && fd == fdp
        then Option.map (λ n. 0) (observes q fd m)
        else observes q fd m)
unfolding remove_fd
observes-remove_fd q key fd fdp m = elim (Option-cases (lookup key m)) [
  | inl e ↦ rw (e, remove_fd) (observes_absent q key fd fdp m e)
  | inr (fds, e) ↦
      rw (e, remove_fd)
        (ground (
          arith,
          observes-put q key fd (remove_all fdp fds) m,
          count-remove_all fd fdp fds,
          observes_same q key fd fds m,
        ))
]

-- In a table in the order of its keys, `insert(key)` makes an object without observers and returns
-- 0; it returns 1 and changes nothing if the object is there. `remove(key)` takes the object out.
-- Both leave every other object as it was.
pub find-insert-remove :
    (key : List ℕ) (m : ObserverHash)
    → IsSorted m
    → ((q : List ℕ)
        → find q (insert key m).1
          ≡ (if same_key q key then some (Option.get_or (find key m) []) else find q m))
      × ((insert key m).0 ≡ elim (find key m) [ none ↦ pos 0 | some fds ↦ pos 1 ])
      × ((q : List ℕ) → find q (remove key m) ≡ (if same_key q key then none else find q m))
unfolding insert remove find
find-insert-remove key m s = elim (Option-cases (lookup key m)) [
  | inl e ↦ (
    λ q. rw (e, insert) (lookup-put q key [] m),
    rw (e, insert),
    λ q. rw (e, remove) (let alike = same_key→eq q key in ground arith),
  )
  | inr (fds, e) ↦ (
    λ q. rw (e, insert) (let alike = same_key→eq q key in ground arith),
    rw (e, insert),
    λ q. rw (e, remove) (lookup-erase q key m s),
  )
]
