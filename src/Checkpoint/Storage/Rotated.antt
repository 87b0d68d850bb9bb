-- ===== src/Checkpoint/Storage/Rotated.antt =====
-- About the steps of one write of a checkpoint (src/takler/server/checkpoint.py).
use takler.Prelude.{
  ℕ, suc, ◌<◌, ◌≡◌, refl, sym, ◌∙◌, ap, ◌⊎◌, inl, inr, Bool, true, false, Option, none, some,
  is_some, Bool-cases, arith,
}
use takler.Checkpoint.Storage.{
  Files, Writing, whole, stopped, torn, Plan, Done, ◌then_next◌, same_file, put, read, write_main,
  write_backup, copy_from, copy_file, copy_to_backup_temp, links, replace_backup,
  replace_checkpoint, rotate,
}

abbrev pub IsBelow : Option ℕ → ℕ → Type 0
IsBelow none n = Unit
IsBelow (some i) n = i < n

-- How a step ends: it returns with the one property, or it does not, with the other.
abbrev pub Ends : {C : Type 0} → (Files C → Type 0) → (Files C → Type 0) → Done C → Type 0
Ends P Q (f, true) = P f
Ends P Q (f, false) = Q f

pub IsBelow-suc : (o : Option ℕ) (n : ℕ) → IsBelow o n → IsBelow o (suc n)
IsBelow-suc none n h = tt
IsBelow-suc (some i) n h = omega arith

pub apart_fresh : (o : Option ℕ) (n : ℕ) → IsBelow o n → same_file (some n) o ≡ false
apart_fresh none n h = refl
apart_fresh (some i) n h = ground arith

module _ {C : Type 0} where
  next-Ends :
      (P P' Q : Files C → Type 0) (r : Done C) (k : Files C → Done C)
      → Ends P Q r
      → ((f : Files C) → P f → Ends P' Q (k f))
      → Ends P' Q (r then_next k)
  next-Ends P P' Q (f, true) k h rest = rest f h
  next-Ends P P' Q (f, false) k h rest = h

  read-put :
      (f : Files C) (c : C) (o : Option ℕ)
      → IsBelow o f.fresh
      → read (record f { contents = put f.fresh c f.contents }) o ≡ read f o
  read-put f c none h = refl
  read-put f c (some i) h = ground arith

  read-put_twice :
      (f : Files C) (b c : C) (o : Option ℕ)
      → IsBelow o f.fresh
      → read (record f { contents = put f.fresh c (put f.fresh b f.contents) }) o ≡ read f o
  read-put_twice f b c none h = refl
  read-put_twice f b c (some i) h = ground arith

-- Between two writes: what the checkpoint reads as, and that nothing is left of the backup.
pub record IsTidy {C : Type 0} (o : Option C) (f : Files C) : Type 0 where
  pub reads : read f f.checkpoint_file ≡ o
  pub below : IsBelow f.checkpoint_file f.fresh
  pub alone : is_some f.checkpoint_file ≡ false → f.backup_file ≡ none
  pub no_temp : f.backup_temp ≡ none

-- During a write: the new snapshot is in a file of its own.
pub record IsReady {C : Type 0} (o : Option C) (payload : C) (m : ℕ) (f : Files C) : Type 0 where
  pub reads : read f f.checkpoint_file ≡ o
  pub below : IsBelow f.checkpoint_file f.fresh
  pub alone : is_some f.checkpoint_file ≡ false → (f.backup_file ≡ none) × (f.backup_temp ≡ none)
  pub at_temp : f.main_temp ≡ some m
  pub holds : f.contents m ≡ payload
  pub known : m < f.fresh
  pub apart : same_file (some m) f.checkpoint_file ≡ false

-- After a write that failed, or did not.
pub record IsLeft {C : Type 0} (o : Option C) (f : Files C) : Type 0 where
  pub reads : read f f.checkpoint_file ≡ o
  pub below : IsBelow f.checkpoint_file f.fresh
  pub alone : is_some f.checkpoint_file ≡ false → f.backup_file ≡ none

abbrev pub IsEither : {C : Type 0} → Option C → C → Files C → Type 0
IsEither o payload f = IsLeft o f ⊎ IsLeft (some payload) f

module _ {C : Type 0} (o : Option C) (payload : C) where
  ready-IsLeft : (m : ℕ) (f : Files C) → IsReady o payload m f → IsLeft o f
  ready-IsLeft m f h = record { reads = h.reads; below = h.below; alone = λ e. (h.alone e).0 }

  pub write_main-IsReady :
      (f : Files C) (t : Option ℕ)
      → t ≡ none
      → IsTidy o f
      → IsReady o payload f.fresh (write_main payload f t)
  write_main-IsReady f none e h = record {
    reads = read-put f payload f.checkpoint_file h.below ∙ h.reads;
    below = IsBelow-suc f.checkpoint_file f.fresh h.below;
    alone = λ k. (h.alone k, h.no_temp);
    at_temp = refl;
    holds = ground arith;
    known = omega arith;
    apart = apart_fresh f.checkpoint_file f.fresh h.below;
  }
  write_main-IsReady f (some i) e h = cc

  pub write_main-IsTidy :
      (c : C) (f : Files C) (t : Option ℕ) → t ≡ none → IsTidy o f → IsTidy o (write_main c f t)
  write_main-IsTidy c f none e h = record {
    reads = read-put f c f.checkpoint_file h.below ∙ h.reads;
    below = IsBelow-suc f.checkpoint_file f.fresh h.below;
    alone = h.alone;
    no_temp = h.no_temp;
  }
  write_main-IsTidy c f (some i) e h = cc

  -- A backup that is copied stands in a file of its own.
  write_backup-IsReady :
      (m : ℕ) (c : C) (f : Files C) (t : Option ℕ)
      → t ≡ none
      → is_some f.checkpoint_file ≡ true
      → IsReady o payload m f
      → IsReady o payload m (write_backup c f t)
  write_backup-IsReady m c f none e present h = record {
    reads = read-put f c f.checkpoint_file h.below ∙ h.reads;
    below = IsBelow-suc f.checkpoint_file f.fresh h.below;
    alone = λ k. cc;
    at_temp = h.at_temp;
    holds = (let k = h.known in let l = h.holds in ground arith);
    known = (let k = h.known in omega arith);
    apart = h.apart;
  }
  write_backup-IsReady m c f (some i) e present h = cc

  copy_file-Ends :
      (m : ℕ) (blank : C) (w : Writing C) (i : ℕ) (f : Files C) (t : Option ℕ)
      → f.backup_temp ≡ t
      → t ≡ none
      → is_some f.checkpoint_file ≡ true
      → IsReady o payload m f
      → Ends (IsReady o payload m) (IsEither o payload) (copy_file blank w i f)
  copy_file-Ends m blank stopped i f t e n present h = inl (ready-IsLeft m f h)
  copy_file-Ends m blank (torn c) i f t e n present h = inl (
      ready-IsLeft m (write_backup c f f.backup_temp)
        (write_backup-IsReady m c f f.backup_temp (e ∙ n) present h))
  copy_file-Ends m blank whole i f t e n present h = rw (e ∙ n) (record {
    reads = read-put_twice f blank _ f.checkpoint_file h.below ∙ h.reads;
    below = IsBelow-suc f.checkpoint_file f.fresh h.below;
    alone = λ k. cc;
    at_temp = h.at_temp;
    holds = (let k = h.known in let l = h.holds in ground arith);
    known = (let k = h.known in omega arith);
    apart = h.apart;
  })

  copy_from-Ends :
      (m : ℕ) (blank : C) (can_link : Bool) (p : Plan C) (f : Files C) (t : Option ℕ)
      → f.checkpoint_file ≡ t
      → f.backup_temp ≡ none
      → IsReady o payload m f
      → Ends (IsReady o payload m) (IsEither o payload) (copy_from blank can_link p f t)
  copy_from-Ends m blank can_link p f none e n h = h
  copy_from-Ends m blank can_link p f (some i) e n h = elim (Bool-cases (links can_link p f i)) [
    | inl l ↦ rw l (record {
      reads = h.reads;
      below = h.below;
      alone = λ k. absurd (cc);
      at_temp = h.at_temp;
      holds = h.holds;
      known = h.known;
      apart = h.apart;
    })
    | inr l ↦ rw l (copy_file-Ends m blank p.copy i f none n refl (rw e refl) h)
  ]

  replace_backup-Ends :
      (m : ℕ) (works : Bool) (f : Files C)
      → IsReady o payload m f
      → Ends (IsReady o payload m) (IsEither o payload) (replace_backup works f)
  unfolding replace_backup
  replace_backup-Ends m works f h = elim (Bool-cases (is_some f.backup_temp)) [
    | inr e ↦ rw e h
    | inl e ↦ rw e (elim (Bool-cases works) [
      | inr w ↦ rw w (inl (ready-IsLeft m f h))
      | inl w ↦ rw w (elim (Bool-cases (same_file f.backup_temp f.backup_file)) [
        | inl l ↦ rw l h
        | inr l ↦ rw l (record {
          reads = h.reads;
          below = h.below;
          alone = λ k. absurd (let (_, n) = h.alone k in cc (sym e ∙ ap is_some n));
          at_temp = h.at_temp;
          holds = h.holds;
          known = h.known;
          apart = h.apart;
        })
      ])
    ])
  ]

  replace_checkpoint-Ends :
      (m : ℕ) (works : Bool) (f : Files C)
      → IsReady o payload m f
      → Ends (IsLeft (some payload)) (IsEither o payload) (replace_checkpoint works f)
  unfolding replace_checkpoint
  replace_checkpoint-Ends m works f h = elim (Bool-cases works) [
    | inr w ↦ rw w (inl (ready-IsLeft m f h))
    | inl w ↦
        rw (w, h.at_temp)
          (rw h.apart (record { reads = ap some h.holds; below = h.known; alone = λ k. cc }))
  ]

  pub rotate-Ends :
      (m : ℕ) (blank : C) (can_link : Bool) (p : Plan C) (f : Files C)
      → f.backup_temp ≡ none
      → IsReady o payload m f
      → Ends (IsLeft (some payload)) (IsEither o payload) (rotate blank can_link p f)
  unfolding rotate copy_to_backup_temp
  rotate-Ends m blank can_link p f n h =
      let Q = IsEither o payload in
      let Ready = IsReady o payload m in
      let Put = IsLeft (some payload) in
      next-Ends Put Put Q
        ((f, p.ensure_parent_directory)
          then_next copy_to_backup_temp blank can_link p
          then_next replace_backup p.replace_backup
          then_next replace_checkpoint p.replace_checkpoint)
        (λ g. (g, p.sync_directory))
        (next-Ends Ready Put Q
          ((f, p.ensure_parent_directory)
            then_next copy_to_backup_temp blank can_link p
            then_next replace_backup p.replace_backup)
          (replace_checkpoint p.replace_checkpoint)
          (next-Ends Ready Ready Q
            ((f, p.ensure_parent_directory) then_next copy_to_backup_temp blank can_link p)
            (replace_backup p.replace_backup)
            (next-Ends (λ g. Ready g × (g.backup_temp ≡ none)) Ready Q
              (f, p.ensure_parent_directory) (copy_to_backup_temp blank can_link p)
              (made p.ensure_parent_directory)
              (λ g (k, e). copy_from-Ends m blank can_link p g g.checkpoint_file refl e k))
            (replace_backup-Ends m p.replace_backup))
          (replace_checkpoint-Ends m p.replace_checkpoint))
        (λ g k. synced p.sync_directory g k)
    where
      made :
          (b : Bool)
          → Ends (λ g. IsReady o payload m g × (g.backup_temp ≡ none)) (IsEither o payload) (f, b)
      made true = (h, n)
      made false = inl (ready-IsLeft m f h)

      synced :
          (b : Bool) (g : Files C)
          → IsLeft (some payload) g
          → Ends (IsLeft (some payload)) (IsEither o payload) (g, b)
      synced true g k = k
      synced false g k = inr k
