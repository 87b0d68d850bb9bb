-- ===== src/Access/Files.antt =====
-- About the cache of a credential file (src/takler/server/auth.py).
use Prim.Native.String.{String}
use mathlib.Core.Bool.{true≢false}
use mathlib.Core.Option.{some-injective}
use takler.Prelude.{
  ◌≡◌, ◌⊎◌, inl, inr, refl, sym, ap, ◌∙◌, true, false, List, [], ◌∷◌, Option, none, some,
  Bool-cases, All, arith,
}
use takler.Access.{
  Fingerprint, same_fingerprint, Disk, no_stat, no_text, lines, CredentialFile,
  CredentialFileContent, new_file, parse_credential_lines, read_disk, read,
}

same_fingerprint_eq :
    (f : Option Fingerprint) (g : Fingerprint) → same_fingerprint f g ≡ true → f ≡ some g
same_fingerprint_eq none g h = ground arith
same_fingerprint_eq (some f) g h = ap some (ground arith)

module _ (strip : String → String) (text : Fingerprint → List String) where
  -- A change of the text changes the fingerprint: the lines are a function of it.
  abbrev pub IsStamped : Disk → Type 0
  IsStamped no_stat = Unit
  IsStamped (no_text g) = Unit
  IsStamped (lines g ls) = ls ≡ text g

  abbrev pub read_all : List Disk → CredentialFile → CredentialFile
  read_all [] f = f
  read_all (d ∷ ds) f = read_all ds (read strip d f).1

  -- The content of the read: the values of the current lines, or none.
  abbrev pub IsFresh : Disk → CredentialFileContent → Type 0
  IsFresh no_stat c = (c.is_error ≡ true) × (c.values ≡ [])
  IsFresh (no_text g) c =
      ((c.is_error ≡ true) × (c.values ≡ []))
      ⊎ ((c.is_error ≡ false) × (c.values ≡ parse_credential_lines strip (text g)))
  IsFresh (lines g ls) c = (c.is_error ≡ false) × (c.values ≡ parse_credential_lines strip ls)

  abbrev IsCached : CredentialFile → Type 0
  IsCached f =
      (f.configured ≡ true)
      × ((f.fingerprint ≡ none)
          ⊎ ((g : Fingerprint) × (f.fingerprint ≡ some g)
              × (f.values ≡ parse_credential_lines strip (text g))))

  -- Where the fingerprint is the cached one, so are the values.
  cached_values :
      (f : CredentialFile) (g : Fingerprint)
      → IsCached f
      → same_fingerprint f.fingerprint g ≡ true
      → f.values ≡ parse_credential_lines strip (text g)
  cached_values f g (c, inl e) h = absurd (true≢false (sym (rw e at h)))
  cached_values f g (c, inr (k, e, v)) h =
      v
      ∙ ap (λ x. parse_credential_lines strip (text x))
          (some-injective k g (sym e ∙ same_fingerprint_eq f.fingerprint g h))

  read_disk-IsFresh :
      (d : Disk) (f : CredentialFile)
      → IsStamped d
      → IsCached f
      → IsFresh d (read_disk strip d f).0 × IsCached (read_disk strip d f).1
  read_disk-IsFresh no_stat f s (c, v) = ((refl, refl), (c, inl refl))
  read_disk-IsFresh (no_text g) f s h = elim (Bool-cases (same_fingerprint f.fingerprint g)) [
    | inl e ↦ rw e (inr (refl, cached_values f g h e), h)
    | inr e ↦ rw e (inl (refl, refl), (h.0, inl refl))
  ]
  read_disk-IsFresh (lines g ls) f s h = elim (Bool-cases (same_fingerprint f.fingerprint g)) [
    | inl e ↦ rw e ((refl, cached_values f g h e ∙ ap (parse_credential_lines strip) (sym s)), h)
    | inr e ↦ rw e ((refl, refl), (h.0, inr (g, refl, ap (parse_credential_lines strip) s)))
  ]

  read-IsFresh :
      (d : Disk) (f : CredentialFile)
      → IsStamped d
      → IsCached f
      → IsFresh d (read strip d f).0 × IsCached (read strip d f).1
  unfolding read
  read-IsFresh d f s (c, v) = simp c (read_disk-IsFresh d f s (c, v))

  read_all-IsCached :
      (ds : List Disk) (f : CredentialFile)
      → All IsStamped ds
      → IsCached f
      → IsCached (read_all ds f)
  read_all-IsCached [] f s h = h
  read_all-IsCached (d ∷ ds) f (s, ss) h =
      read_all-IsCached ds (read strip d f).1 ss (read-IsFresh d f s h).1

  -- If the text of a file does not change without its fingerprint, then whatever was read before, and
  -- failed reads among it, a read gives the values of the current text, or an error with no values: the
  -- error if the file is gone, and the values if the text can be read.
  pub read_all-IsFresh :
      (ds : List Disk) (d : Disk)
      → All IsStamped ds
      → IsStamped d
      → IsFresh d (read strip d (read_all ds (new_file true))).0
  read_all-IsFresh ds d ss s =
      (read-IsFresh d (read_all ds (new_file true)) s
        (read_all-IsCached ds (new_file true) ss (refl, inl refl))).0
