-- ===== src/Checkpoint/Storage/Recovers.antt =====
-- About the restore after any course of writes and ends of the process (src/takler/server/
-- checkpoint.py).
use takler.Prelude.{
  ℕ, ◌≡◌, refl, ◌⊎◌, inl, inr, Bool, true, false, not, ◌&&◌, if◌then◌else◌, List, [], ◌∷◌, Option,
  none, some, Bool-cases, leb, All,
}
use takler.Checkpoint.Storage.{
  Files, Writing, whole, stopped, torn, Plan, Done, read, write_main, write_temp_file,
  unlink_backup, unlink_main, after_failure, rotate, prepare, Publisher, Answer, publish_prepared,
  write_checkpoint, start, unprepared, published, after_prepare, is_overtaken, drop_prepared,
  note_failure,
}
use takler.Checkpoint.Storage.Rotated.{
  IsTidy, IsReady, IsLeft, IsEither, Ends, write_main-IsReady, write_main-IsTidy, rotate-Ends,
}
use takler.Checkpoint.Restore.{Reader, restored, new_service, primary, candidate, restore}

-- What happens to a server: a write, or the end of its process and a new start, with what stands under
-- the name of the new process's temporary backup.
pub data Event (C : Type 0) : Type 0 where
  write : (payload : C) → (sequence : ℕ) → Plan C → Event C
  restart : Option ℕ → Event C

-- A write that ends the process is followed by a start.
abbrev pub settled : {C : Type 0} → Plan C → Answer C → Publisher C
settled p (m, success, _) = if p.killed && not success then start p.next_temp m.files else m

abbrev was_published : {C : Type 0} → Answer C → Bool
was_published (m, _, done) = done

module _ {C : Type 0} (blank : C) where
  -- The server after the course, and each payload with whether its write says that it is published.
  abbrev pub run : List (Event C) → Publisher C → Publisher C × List (C × Bool)
  run [] m = (m, [])
  run (restart left ∷ es) m = run es (start left m.files)
  run (write payload n p ∷ es) m =
      let a = write_checkpoint blank payload n p m in
      let (m', log) = run es (settled p a) in (m', (payload, was_published a) ∷ log)

-- The checkpoint that a course of writes may leave: a published payload replaces what was there, and any
-- other either does or does not.
abbrev pub Leads : {C : Type 0} → Option C → List (C × Bool) → Option C → Type 0
Leads o [] o' = o ≡ o'
Leads o ((payload, done) ∷ log) o' = Leads (some payload) log o' ⊎ ((done ≡ false) × Leads o log o')

-- The temporary backup can be removed, and a process that starts finds none under its own name: the
-- number of a process that ended with its temporary backup in place does not come again.
abbrev pub IsClean : {C : Type 0} → Event C → Type 0
IsClean (write payload n p) = (p.unlink_backup ≡ true) × (p.next_temp ≡ none)
IsClean (restart left) = left ≡ none

abbrev After : {C : Type 0} → Option C → C → Bool → Files C → Type 0
After o payload done f = IsTidy (some payload) f ⊎ ((done ≡ false) × IsTidy o f)

abbrev IsAfter : {C : Type 0} → Option C → C → Plan C → Answer C → Type 0
IsAfter o payload p a = After o payload (was_published a) (settled p a).files

module _ {C : Type 0} (o : Option C) where
  start-IsTidy :
      (left : Option ℕ) (f : Files C) → left ≡ none → IsLeft o f → IsTidy o (start left f).files
  start-IsTidy left f e h = record {
    reads = h.reads;
    below = h.below;
    alone = h.alone;
    no_temp = e;
  }

  tidy-IsLeft : (f : Files C) → IsTidy o f → IsLeft o f
  tidy-IsLeft f h = record { reads = h.reads; below = h.below; alone = h.alone }

  unlinked-IsTidy :
      (works : Bool) (f : Files C) → works ≡ true → IsLeft o f → IsTidy o (unlink_backup works f)
  unlinked-IsTidy works f e h = record {
    reads = h.reads;
    below = h.below;
    alone = h.alone;
    no_temp = rw e refl;
  }

  -- What follows a failure that left the checkpoint as `o` has it.
  failure-IsTidy :
      (p : Plan C) (m : Publisher C) (f : Files C)
      → m.files ≡ after_failure p f
      → (p.unlink_backup ≡ true) × (p.next_temp ≡ none)
      → IsLeft o f
      → IsTidy o (settled p (m, false, false)).files
  failure-IsTidy p m f e clean h = elim (Bool-cases p.killed) [
    | inl k ↦ rw (k, e) (rw k (start-IsTidy p.next_temp f clean.1 h))
    | inr k ↦
        rw (k, e)
          (rw k (record {
            reads = h.reads;
            below = h.below;
            alone = h.alone;
            no_temp = rw clean.0 refl;
          }))
  ]

  settled-IsTidy :
      (p : Plan C) (m : Publisher C) (success done : Bool)
      → p.next_temp ≡ none
      → IsTidy o m.files
      → IsTidy o (settled p (m, success, done)).files
  settled-IsTidy p m success done next h = elim (Bool-cases (p.killed && not success)) [
    | inl e ↦ rw e (start-IsTidy p.next_temp m.files next (tidy-IsLeft m.files h))
    | inr e ↦ rw e h
  ]

  dropped-IsTidy :
      (works : Bool) (k : ℕ) (payload : C) (f : Files C)
      → f.backup_temp ≡ none
      → IsReady o payload k f
      → IsTidy o (unlink_main works f)
  dropped-IsTidy works k payload f n h = record {
    reads = h.reads;
    below = h.below;
    alone = λ e. (h.alone e).0;
    no_temp = n;
  }

module _ {C : Type 0} (o : Option C) (payload : C) (p : Plan C)
    (clean : (p.unlink_backup ≡ true) × (p.next_temp ≡ none)) where
  published-IsAfter :
      (m : Publisher C) (r : Done C)
      → Ends (IsLeft (some payload)) (IsEither o payload) r
      → IsAfter o payload p (published p m r)
  published-IsAfter m (f, true) h = inl (
      settled-IsTidy (some payload) p (published p m (f, true)).0 true true clean.1
        (unlinked-IsTidy (some payload) p.unlink_backup f clean.0 h))
  published-IsAfter m (f, false) (inl h) =
      inr (refl, failure-IsTidy o p (published p m (f, false)).0 f refl clean h)
  published-IsAfter m (f, false) (inr h) =
      inl (failure-IsTidy (some payload) p (published p m (f, false)).0 f refl clean h)

  module _ (blank : C) (n : ℕ) where
    publish-IsAfter :
        (k : ℕ) (m : Publisher C)
        → m.files.backup_temp ≡ none
        → IsReady o payload k m.files
        → IsAfter o payload p (publish_prepared blank n p m)
    unfolding publish_prepared
    publish-IsAfter k m e h = elim (Bool-cases (is_overtaken n m)) [
      | inl old ↦ rw old (
          inr (
            refl,
            settled-IsTidy o p (drop_prepared p m) false false clean.1
                (dropped-IsTidy o p.unlink_main k payload m.files e h),
          ))
      | inr new ↦ rw new (elim (Bool-cases (leb n m.last_attempted_sequence)) [
        | inl old ↦ rw old (
            inr (
              refl,
              settled-IsTidy o p (drop_prepared p m) m.last_attempt_succeeded false clean.1
                  (dropped-IsTidy o p.unlink_main k payload m.files e h),
            ))
        | inr next ↦ rw next (
            published-IsAfter (record m { last_attempted_sequence = n })
              (rotate blank m.can_link_backup p m.files)
              (rotate-Ends o payload k blank m.can_link_backup p m.files e h))
      ])
    ]

    written :
        (c : C) (f : Files C) (t : Option ℕ)
        → f.backup_temp ≡ none
        → (write_main c f t).backup_temp ≡ none
    written c f none e = e
    written c f (some i) e = e

    unprepared-IsAfter :
        (m : Publisher C) (g : Files C)
        → IsTidy o g
        → IsAfter o payload p (after_prepare blank n p m (unprepared p (g, false)))
    unprepared-IsAfter m g h = inr (
      refl,
      settled-IsTidy o p (note_failure n (record m { files = (unprepared p (g, false)).0 })) false
          false clean.1 (removed p.killed),
    )
      where
        removed : (b : Bool) → IsTidy o (if b then g else unlink_main p.unlink_main g)
        removed true = h
        removed false = record {
          reads = h.reads;
          below = h.below;
          alone = h.alone;
          no_temp = h.no_temp;
        }

    prepared-IsAfter :
        (w : Writing C) (m : Publisher C) (f : Files C)
        → f.main_temp ≡ none
        → IsTidy o f
        → IsAfter o payload p
            (after_prepare blank n p m (unprepared p (write_temp_file payload w f)))
    unfolding write_temp_file
    prepared-IsAfter whole m f e h =
        publish-IsAfter f.fresh (record m { files = write_main payload f f.main_temp })
          (written payload f f.main_temp h.no_temp) (write_main-IsReady o payload f f.main_temp e h)
    prepared-IsAfter stopped m f e h = unprepared-IsAfter m f h
    prepared-IsAfter (torn c) m f e h =
        unprepared-IsAfter m (write_main c f f.main_temp)
          (write_main-IsTidy o payload c f f.main_temp e h)

    write-IsAfter :
        (m : Publisher C)
        → IsTidy o m.files
        → IsAfter o payload p (write_checkpoint blank payload n p m)
    unfolding write_checkpoint prepare
    write-IsAfter m h =
        prepared-IsAfter p.write_temp_file m (record m.files { main_temp = none }) refl
          (record { reads = h.reads; below = h.below; alone = h.alone; no_temp = h.no_temp })

-- What the files restore to.
abbrev pub Restores : {C B : Type 0} → Reader C B → Option C → Files C → Type 0
Restores r none f = restore r f ≡ new_service
Restores {B = B} r (some c) f =
    (b : B) × (candidate r (some c) ≡ some b) × (restore r f ≡ restored primary b)

module _ {C B : Type 0} (r : Reader C B) where
  -- A snapshot that a restore accepts.
  abbrev pub IsUsable : Option C → Type 0
  IsUsable none = Unit
  IsUsable (some c) = (b : B) × (candidate r (some c) ≡ some b)

  abbrev pub IsUsableWrite : Event C → Type 0
  IsUsableWrite (restart left) = Unit
  IsUsableWrite (write payload n p) = IsUsable (some payload)

  absent : (f : Files C) (t : Option ℕ) → read f t ≡ none → t ≡ none
  absent f none e = refl
  absent f (some i) e = cc

  tidy-Restores : (o : Option C) (f : Files C) → IsUsable o → IsTidy o f → Restores r o f
  unfolding restore
  tidy-Restores none f u h =
      let e = absent f f.checkpoint_file h.reads in rw (e, h.alone (rw e refl)) refl
  tidy-Restores (some c) f (b, u) h = (b, u, rw (h.reads, u) refl)

  module _ (blank : C) where
    abbrev EndsUp : Option C → Publisher C × List (C × Bool) → Type 0
    EndsUp o (m, log) = (o' : Option C) × Leads o log o' × Restores r o' m.files

    goes_on :
        (o : Option C) (payload : C) (a : Answer C) (p : Plan C)
        (rest : Publisher C × List (C × Bool))
        → ((o' : Option C) → IsTidy o' (settled p a).files → IsUsable o' → EndsUp o' rest)
        → IsUsable o
        → IsUsable (some payload)
        → IsAfter o payload p a
        → EndsUp o (rest.0, (payload, was_published a) ∷ rest.1)
    goes_on o payload a p rest ih u v (inl k) =
        let (o', l, s) = ih (some payload) k v in (o', inl l, s)
    goes_on o payload a p rest ih u v (inr (e, k)) =
        let (o', l, s) = ih o k u in (o', inr (e, l), s)

    run-Leads :
        (es : List (Event C)) (o : Option C) (m : Publisher C)
        → IsTidy o m.files
        → IsUsable o
        → All IsClean es
        → All IsUsableWrite es
        → EndsUp o (run blank es m)
    run-Leads [] o m h u cs us = (o, refl, tidy-Restores o m.files u h)
    run-Leads (restart left ∷ es) o m h u (c, cs) (_, us) =
        run-Leads es o (start left m.files)
          (start-IsTidy o left m.files c (tidy-IsLeft o m.files h)) u cs us
    run-Leads (write payload n p ∷ es) o m h u (c, cs) (v, us) =
        let a = write_checkpoint blank payload n p m in
        goes_on o payload a p (run blank es (settled p a))
          (λ o' k w. run-Leads es o' (settled p a) k w cs us) u v
          (write-IsAfter o payload p c blank n m h)

    -- From a checkpoint that restores, or from no checkpoint and no backup, after any course of writes of
    -- snapshots that restore, if a process that goes on can always remove its temporary backup and a process
    -- that starts finds no file under the name of its own: whichever other steps fail and wherever the
    -- process ends and starts again, a restore gives the checkpoint that the course leads to. A write that
    -- says that it published its snapshot has replaced the checkpoint; any other has replaced it or left it.
    pub restore-run :
        (es : List (Event C)) (f : Files C) (o : Option C)
        → IsLeft o f
        → IsUsable o
        → All IsClean es
        → All IsUsableWrite es
        → (o' : Option C) × Leads o (run blank es (start none f)).1 o'
          × Restores r o' (run blank es (start none f)).0.files
    restore-run es f o h = run-Leads es o (start none f) (start-IsTidy o none f refl h)
