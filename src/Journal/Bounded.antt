-- ===== src/Journal/Bounded.antt =====
-- About the window of the journal and its open transaction (src/takler/server/query_changes.py).
use Prim.Native.String.{String}
use text.Mathlib.Text.{◌==◌ as str_eq}
use takler.Prelude.{
  ℕ, suc, ◌+◌, ◌-◌, ◌≤◌, ◌≡◌, refl, ap, Bool, true, ◌&&◌, not, List, [], ◌∷◌, length, leb, ◌==◌,
  is_some, Bool-cases, inl, inr, arith,
}
use takler.Journal.{
  QueryChange, ChangeBatch, QueryChanges, max_change_batches, max_changes_per_batch,
  max_retained_changes, max_change_window_bytes, is_none, new_changes, is_over, drop_oldest,
  expire_from, expire, append_batch, commit, begin, close, finish, find_change, put_change,
  is_reset, add_pending, bounded, mark, since,
}
use takler.Journal.Runs.{append_batch-IsValid, IsValid, changes_in, bytes_in}
use takler.Journal.Complete.{
  Use, mark_one, enter, end, read, new-IsValid, or_same, use_one, use_all, use_one-IsValid,
  use_all-IsValid,
}

-- The limits of the window, for the counts that the journal keeps.
pub record IsInWindow (q : QueryChanges) : Type 0 where
  pub few_batches : length q.batches ≤ max_change_batches
  pub few_changes : q.retained_changes ≤ max_retained_changes
  pub few_bytes : q.retained_bytes ≤ max_change_window_bytes

expire_from-IsInWindow :
    (now : ℕ) (bs : List ChangeBatch) (q : QueryChanges)
    → q.batches ≡ bs
    → q.retained_changes ≡ changes_in bs
    → q.retained_bytes ≡ bytes_in bs
    → IsInWindow (expire_from now bs q)
unfolding expire_from
expire_from-IsInWindow now [] q e c y = record {
  few_batches = rw e (ground arith);
  few_changes = rw c (ground arith);
  few_bytes = rw y (ground arith);
}
expire_from-IsInWindow now (b ∷ bs) q e c y = elim (Bool-cases (is_over now q b)) [
  | inl over ↦
      rw over (expire_from-IsInWindow now bs (drop_oldest q b bs) refl (omega arith) (omega arith))
  | inr kept ↦
      rw kept (record {
        few_batches = ground arith;
        few_changes = ground arith;
        few_bytes = ground arith;
      })
]

expire-IsInWindow : (now : ℕ) (q : QueryChanges) → IsValid q → IsInWindow (expire now q)
unfolding expire
expire-IsInWindow now q h =
    expire_from-IsInWindow now q.batches q refl h.changes_counted h.bytes_counted

-- `put_change` adds a path at most, and none that is there.
put_change-length :
    (c : QueryChange) (cs : List QueryChange) → length (put_change c cs) ≤ length cs + 1
put_change-length c [] = ground arith
put_change-length c (d ∷ ds) = elim (Bool-cases (str_eq d.path c.path)) [
  | inl e ↦ rw e (omega arith)
  | inr e ↦ rw e (omega (arith, put_change-length c ds))
]

put_change-known :
    (c : QueryChange) (cs : List QueryChange)
    → is_some (find_change c.path cs) ≡ true
    → length (put_change c cs) ≡ length cs
put_change-known c [] h = ground arith
put_change-known c (d ∷ ds) h = elim (Bool-cases (str_eq d.path c.path)) [
  | inl e ↦ rw e refl
  | inr e ↦ rw e (ap suc (put_change-known c ds (rw e at h)))
]

add_pending-length :
    (c : QueryChange) (cs : List QueryChange)
    → length cs ≤ max_changes_per_batch
    → length (add_pending c cs) ≤ max_changes_per_batch
add_pending-length c cs h = elim (Bool-cases (is_some (find_change c.path cs))) [
  | inl known ↦ elim (Bool-cases (is_reset (find_change "/" cs))) [
    | inl e ↦ simp (known, e) (ground arith)
    | inr e ↦ simp (known, e) (ground (arith, put_change-known c cs known))
  ]
  | inr fresh ↦ elim (Bool-cases (leb max_changes_per_batch (length cs))) [
    | inl full ↦ simp (fresh, full) (ground arith)
    | inr room ↦ elim (Bool-cases (is_reset (find_change "/" cs))) [
      | inl e ↦ simp (fresh, room, e) (ground arith)
      | inr e ↦ simp (fresh, room, e) (ground (arith, put_change-length c cs))
    ]
  ]
]

-- The journal is within its window, and an open transaction within its own limit.
pub record IsBounded (q : QueryChanges) : Type 0 where
  pub window : IsInWindow q
  pub few_pending : length q.pending ≤ max_changes_per_batch

expire_from-pending :
    (now : ℕ) (bs : List ChangeBatch) (q : QueryChanges)
    → (expire_from now bs q).pending ≡ q.pending
unfolding expire_from
expire_from-pending now [] q = refl
expire_from-pending now (b ∷ bs) q = elim (Bool-cases (is_over now q b)) [
  | inl over ↦ rw over (expire_from-pending now bs (drop_oldest q b bs))
  | inr kept ↦ rw kept refl
]

expire-IsBounded :
    (now : ℕ) (q : QueryChanges)
    → IsValid q
    → length q.pending ≤ max_changes_per_batch
    → IsBounded (expire now q)
unfolding expire
expire-IsBounded now q h l = record {
  window = expire-IsInWindow now q h;
  few_pending = rw (expire_from-pending now q.batches q) l;
}

new-IsBounded : IsBounded new_changes
new-IsBounded = record {
  window = record {
    few_batches = ground arith;
    few_changes = ground arith;
    few_bytes = ground arith;
  };
  few_pending = ground arith;
}

same_window-IsValid :
    (q : QueryChanges) (cs : List QueryChange) (n : ℕ)
    → IsValid q
    → IsValid (record q { pending = cs; depth = n })
same_window-IsValid q cs n h = record {
  run = h.run;
  changes_counted = h.changes_counted;
  bytes_counted = h.bytes_counted;
}

module _ (utf8_length : String → ℕ) (is_canonical : String → Bool) where
  close-IsBounded :
      (now : ℕ) (q : QueryChanges) → IsValid q → IsBounded q → IsBounded (close utf8_length now q)
  unfolding commit
  close-IsBounded now q h b = elim (Bool-cases (q.depth == 0)) [
    | inr e ↦ rw e b
    | inl e ↦ rw e (elim (Bool-cases (length q.pending == 0)) [
      | inl e' ↦ rw e' b
      | inr e' ↦ rw e' (
          expire-IsBounded now (append_batch utf8_length now q)
            (append_batch-IsValid utf8_length now q h) (ground arith))
    ])
  ]

  with_pending :
      (q : QueryChanges) (cs : List QueryChange)
      → IsBounded q
      → length cs ≤ max_changes_per_batch
      → IsBounded (record q { pending = cs })
  with_pending q cs b l = record {
    window = record {
      few_batches = b.window.few_batches;
      few_changes = b.window.few_changes;
      few_bytes = b.window.few_bytes;
    };
    few_pending = l;
  }

  with_depth : (q : QueryChanges) (n : ℕ) → IsBounded q → IsBounded (record q { depth = n })
  with_depth q n b = record {
    window = record {
      few_batches = b.window.few_batches;
      few_changes = b.window.few_changes;
      few_bytes = b.window.few_bytes;
    };
    few_pending = b.few_pending;
  }

  mark-IsBounded :
      (now : ℕ) (c : QueryChange) (q : QueryChanges)
      → IsValid q
      → IsBounded q
      → IsBounded (or_same q (mark utf8_length is_canonical now c q))
  unfolding mark
  mark-IsBounded now c q h b = elim (Bool-cases (is_canonical c.path)) [
    | inr e ↦ simp e b
    | inl e ↦ elim (Bool-cases (is_none c.groups && not c.invalidate)) [
      | inl e' ↦ simp (e, e') b
      | inr e' ↦
          simp (e, e')
            (close-IsBounded now
              (record q { pending = add_pending (bounded utf8_length c) q.pending })
              (same_window-IsValid q (add_pending (bounded utf8_length c) q.pending) q.depth h)
              (with_pending q (add_pending (bounded utf8_length c) q.pending) b
                (add_pending-length (bounded utf8_length c) q.pending b.few_pending)))
    ]
  ]

  finish-IsBounded :
      (now : ℕ) (q : QueryChanges)
      → IsValid q
      → IsBounded q
      → IsBounded (or_same q (finish utf8_length now q))
  unfolding finish
  finish-IsBounded now q h b = elim (Bool-cases (q.depth == 0)) [
    | inl e ↦ rw e b
    | inr e ↦ rw e (
        close-IsBounded now (record q { depth = q.depth - 1 })
          (same_window-IsValid q q.pending (q.depth - 1) h) (with_depth q (q.depth - 1) b))
  ]

  use_one-IsBounded :
      (u : Use) (q : QueryChanges)
      → IsValid q
      → IsBounded q
      → IsBounded (use_one utf8_length is_canonical u q)
  unfolding use_one begin since
  use_one-IsBounded (mark_one now c) q h b = mark-IsBounded now c q h b
  use_one-IsBounded enter q h b = with_depth q (q.depth + 1) b
  use_one-IsBounded (end now) q h b = finish-IsBounded now q h b
  use_one-IsBounded (read now r) q h b = expire-IsBounded now q h b.few_pending

  use_all-IsBounded :
      (us : List Use) (q : QueryChanges)
      → IsValid q
      → IsBounded q
      → IsBounded (use_all utf8_length is_canonical us q)
  unfolding use_all
  use_all-IsBounded [] q h b = b
  use_all-IsBounded (u ∷ us) q h b =
      use_all-IsBounded us (use_one utf8_length is_canonical u q)
        (use_one-IsValid utf8_length is_canonical u q h) (use_one-IsBounded u q h b)

  -- Whatever the calls were, the journal holds at most 1024 batches, 8192 changes and 32 MB by its own
  -- estimate, these two being the sums over the batches it holds, and the open transaction has at most
  -- 2048 changes.
  pub journal-IsBounded :
      (us : List Use)
      → IsBounded (use_all utf8_length is_canonical us new_changes)
        × (changes_in (use_all utf8_length is_canonical us new_changes).batches
            ≤ max_retained_changes)
        × (bytes_in (use_all utf8_length is_canonical us new_changes).batches
            ≤ max_change_window_bytes)
  journal-IsBounded us =
      let b = use_all-IsBounded us new_changes new-IsValid new-IsBounded in
      let h = use_all-IsValid utf8_length is_canonical us new_changes new-IsValid in
      (
        b,
        omega (arith, h.changes_counted, b.window.few_changes),
        omega (arith, h.bytes_counted, b.window.few_bytes),
      )
