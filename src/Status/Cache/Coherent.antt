-- ===== src/Status/Cache/Coherent.antt =====
-- About the counters of a container over sequences of calls (src/takler/core/node_container.py).
use takler.Prelude.{
  ℕ, zero, suc, ◌+◌, ◌-◌, ◌<◌, ◌≡◌, refl, true, false, List, [], ◌∷◌, ◌==◌, if◌then◌else◌, Option,
  none, some, length, set, get_elem?, arith, fun_ext, Bool-cases, inl, inr,
}
use takler.Status.{NodeStatus, status_eq, count, most_significant}
use takler.Status.Cache.{
  Container, new, recount, computed_status, set_child_status, Call, compute, set_own, set_status,
  append, update, delete, clear, call, calls, bump, child_status_changed, refresh, counters,
}

abbrev pub Counts : Option (NodeStatus → ℕ) → List NodeStatus → Type 0
Counts none xs = Unit
Counts (some counts) xs = (s : NodeStatus) → counts s ≡ count s xs

-- The counters, where they are kept, are those of the children.
abbrev pub IsCoherent : Container → Type 0
IsCoherent c = Counts c.status_counts c.children

count-set :
    (xs : List NodeStatus) (i : ℕ) (old new s : NodeStatus)
    → get_elem? xs i ≡ some old
    → count s (set xs i new) + (if status_eq old s then 1 else 0)
      ≡ count s xs + (if status_eq new s then 1 else 0)
count-set [] i old new s h = ground arith
count-set (x ∷ xs) zero old new s h = ground arith
count-set (x ∷ xs) (suc i) old new s h = ground (arith, count-set xs i old new s h)

count_pos :
    (xs : List NodeStatus) (i : ℕ) (old : NodeStatus) → get_elem? xs i ≡ some old → 0 < count old xs
count_pos [] i old h = ground arith
count_pos (x ∷ xs) zero old h = ground arith
count_pos (x ∷ xs) (suc i) old h = ground (arith, count_pos xs i old h)

bump-counts :
    (counts : NodeStatus → ℕ) (xs : List NodeStatus) (i : ℕ) (old new : NodeStatus)
    → ((s : NodeStatus) → counts s ≡ count s xs)
    → get_elem? xs i ≡ some old
    → (s : NodeStatus)
    → bump new (λ n. n + 1) (bump old (λ n. n - 1) counts) s ≡ count s (set xs i new)
bump-counts counts xs i old new h e s =
    ground (arith, h s, count-set xs i old new s e, count_pos xs i old e)

child_status_changed-Counts :
    (c : Container) (i : ℕ) (old new : NodeStatus)
    → IsCoherent c
    → get_elem? c.children i ≡ some old
    → Counts
        (child_status_changed old new (record c { children = set c.children i new })).status_counts
        (set c.children i new)
child_status_changed-Counts c i old new h e = go c.status_counts h
  where
    go :
        (o : Option (NodeStatus → ℕ))
        → Counts o c.children
        → Counts
            (child_status_changed old new (record {
              own = c.own;
              children = set c.children i new;
              status_counts = o;
              status_child_count = c.status_child_count;
            })).status_counts
            (set c.children i new)
    go none p = tt
    go (some counts) p = bump-counts counts c.children i old new p e

children-child_status_changed :
    (old new : NodeStatus) (c : Container) → (child_status_changed old new c).children ≡ c.children
children-child_status_changed old new c = ground arith

set_child_status-IsCoherent :
    (i : ℕ) (status : NodeStatus) (c : Container)
    → IsCoherent c
    → IsCoherent (set_child_status i status c)
unfolding set_child_status
set_child_status-IsCoherent i status c h = go (get_elem? c.children i) refl
  where
    go :
        (o : Option NodeStatus)
        → get_elem? c.children i ≡ o
        → IsCoherent (elim o [
          | none ↦ c
          | some old ↦
              if status_eq old status
              then c
              else child_status_changed old status (record c { children = set c.children i status })
        ])
    go none e = h
    go (some old) e =
        elim (status_eq old status)
          as (λ b. IsCoherent (
            if b
            then c
            else child_status_changed old status
                (record c { children = set c.children i status }))) [
                  | true ↦ h
                  | false ↦
                      rw (children-child_status_changed old status _)
                        (child_status_changed-Counts c i old status h e)
                ]

refresh-counters :
    (c : Container)
    → IsCoherent c
    → (s : NodeStatus) → counters (refresh c).status_counts s ≡ count s c.children
refresh-counters c h = go c.status_counts h
  where
    go :
        (o : Option (NodeStatus → ℕ))
        → Counts o c.children
        → (s : NodeStatus)
        → counters
            (refresh (record {
              own = c.own;
              children = c.children;
              status_counts = o;
              status_child_count = c.status_child_count;
            })).status_counts
            s
          ≡ count s c.children
    go none p s = refl
    go (some counts) p s = ground (arith, p s)

refresh-IsCoherent : (c : Container) → IsCoherent c → IsCoherent (refresh c)
refresh-IsCoherent c h = go c.status_counts h
  where
    go :
        (o : Option (NodeStatus → ℕ))
        → Counts o c.children
        → IsCoherent (
            refresh (record {
              own = c.own;
              children = c.children;
              status_counts = o;
              status_child_count = c.status_child_count;
            }))
    go none p = λ s. refl
    go (some counts) p =
        elim (c.status_child_count == length c.children)
          as (λ b. IsCoherent (
            if b
            then (record {
              own = c.own;
              children = c.children;
              status_counts = some counts;
              status_child_count = c.status_child_count;
            })
            else recount (record {
              own = c.own;
              children = c.children;
              status_counts = some counts;
              status_child_count = c.status_child_count;
            }))) [ true ↦ p | false ↦ λ s. refl ]

-- What `computed_status` is to return, with no counters.
abbrev pub status_of : NodeStatus → List NodeStatus → NodeStatus
status_of own xs = if length xs == 0 then own else most_significant xs

computed_status-status_of :
    (c : Container) → IsCoherent c → (computed_status c).1 ≡ status_of c.own c.children
unfolding computed_status most_significant
computed_status-status_of c h = rw (fun_ext (refresh-counters c h)) (ground arith)

computed_status-IsCoherent : (c : Container) → IsCoherent c → IsCoherent (computed_status c).0
unfolding computed_status
computed_status-IsCoherent c h = elim (Bool-cases (length c.children == 0)) [
  | inl e ↦ rw e h
  | inr e ↦ rw e (refresh-IsCoherent c h)
]

call-IsCoherent : (x : Call) (c : Container) → IsCoherent c → IsCoherent (call x c)
unfolding call
call-IsCoherent compute c h = computed_status-IsCoherent c h
call-IsCoherent (set_own s) c h = h
call-IsCoherent (set_status i s) c h = set_child_status-IsCoherent i s c h
call-IsCoherent (append s) c h = tt
call-IsCoherent (update i s) c h = tt
call-IsCoherent (delete i) c h = tt
call-IsCoherent clear c h = tt

calls-IsCoherent : (xs : List Call) (c : Container) → IsCoherent c → IsCoherent (calls xs c)
unfolding calls
calls-IsCoherent [] c h = h
calls-IsCoherent (x ∷ xs) c h = calls-IsCoherent xs (call x c) (call-IsCoherent x c h)

-- After any sequence of calls on a new container, the status computed from the kept counters is the
-- aggregate of the children that the container has: the cache is never stale.
pub calls-computed_status :
    (xs : List Call) → let c = calls xs new in (computed_status c).1 ≡ status_of c.own c.children
calls-computed_status xs = computed_status-status_of (calls xs new) (calls-IsCoherent xs new tt)
