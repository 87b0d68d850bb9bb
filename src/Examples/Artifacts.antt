-- ===== src/Examples/Artifacts.antt =====
-- An index of two tasks, of which one has a path through a link that comes to lead to the other's path.
use Prim.Native.String.{String}
use text.Mathlib.Text.{◌==◌ as str_eq}
use text.Mathlib.TextEquality.{eq_iff}
use takler.Prelude.{
  ◌≡◌, refl, ap, ◌∙◌, ◌↔◌, Bool, true, false, not, List, [], ◌∷◌, none, some, if◌then◌else◌,
  Bool-cases, inl, inr,
}
use takler.Artifacts.{job_path, jobout_path, Disk, ArtifactPathIndex, conflicts, State, empty}
use takler.Artifacts.Updated.{str_eq_refl, Agrees}
use takler.Artifacts.Conflicts.{Rival, Call, set, ask, run, conflicts-run}

abbrev absolute : String → String
absolute v = v

abbrev plain : String → Bool
plain v = not (str_eq v "/link")

-- The link leads to a path that is not its own.
abbrev linked : String → Disk
linked p v = if str_eq v "/link" then p else v

linked-Agrees : (p : String) → str_eq p "/link" ≡ false → Agrees absolute plain (linked p)
linked-Agrees p h v = elim (Bool-cases (str_eq v "/link")) [
  | inr e ↦ rw e (str_eq_refl v)
  | inl e ↦ rw e (ap (str_eq p) ((eq_iff v "/link").0 e) ∙ h)
]

abbrev course : List (Disk × Call)
course =
    (linked "/old", set (1, job_path) (some "/link"))
    ∷ (linked "/old", set (2, job_path) (some "/job"))
    ∷ (linked "/old", ask 1 ("/job" ∷ []))
    ∷ (linked "/job", set (2, jobout_path) (some "/out"))
    ∷ []

conflicts-run_example :
    (s : State) × (run absolute course (λ k. none, empty) ≡ some s)
    × (b : Bool) × (j : ArtifactPathIndex) × (conflicts absolute
          (linked "/job")
          s.0
          2
          ("/job" ∷ [])
          s.1
        ≡ some (j, b))
    × ((b ≡ true) ↔ Rival (linked "/job") s.0 2 ("/job" ∷ []))
conflicts-run_example =
    conflicts-run absolute plain course (linked "/job") 2 ("/job" ∷ [])
      (
        linked-Agrees "/old" refl,
        (linked-Agrees "/old" refl, (linked-Agrees "/old" refl, (linked-Agrees "/job" refl, tt))),
      )
      (linked-Agrees "/job" refl)
