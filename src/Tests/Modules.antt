-- ===== src/Tests/Modules.antt =====
-- Versions and bindings.
use lucet.Prelude.{◌≡◌, ◌⊎◌, refl, arith, true, [], ◌∷◌, ◌++◌, ok, err}
use lucet.LucetModule.VersionInfo.{VersionInfo, compatible_with, write_to, read_from}
use lucet.LucetModule.VersionInfo.Encoding.{IsVersion, read_from-write_to}
use lucet.LucetModule.Bindings.{Error, Bindings, extend, extend_methods, rebind_error}
use lucet.LucetModule.Bindings.Union.{AgreeAll, DifferAt, IsUnionAll, extend_cases}

abbrev release : VersionInfo
release = record {
  major = 0;
  minor = 7;
  patch = 300;
  reserved = 32768;
  version_hash = 49 ∷ 50 ∷ 51 ∷ 52 ∷ 53 ∷ 54 ∷ 55 ∷ 56 ∷ [];
}

release-IsVersion : IsVersion release
release-IsVersion = ground arith

version_bytes :
    write_to release ≡ 0 ∷ 0 ∷ 7 ∷ 0 ∷ 44 ∷ 1 ∷ 0 ∷ 128 ∷ 49 ∷ 50 ∷ 51 ∷ 52 ∷ 53 ∷ 54 ∷ 55 ∷ 56 ∷ []
unfolding write_to
version_bytes = refl

version_example : read_from (write_to release ++ 1 ∷ []) ≡ ok (release, 1 ∷ [])
version_example = read_from-write_to release (1 ∷ []) release-IsVersion

-- A version without its mark.
abbrev unmarked : VersionInfo
unmarked = record release { reserved = 0 }

unmarked_accepted : compatible_with release unmarked ≡ true
unfolding compatible_with
unmarked_accepted = refl

abbrev ours : Bindings
ours = ("env", ("f", "guest_f") ∷ []) ∷ []

abbrev theirs : Bindings
theirs = ("env", ("g", "guest_g") ∷ ("f", "other_f") ∷ []) ∷ []

-- The symbol that is refused stands where the message shows the existing one.
rebinds : (extend theirs ours).0 ≡ err (rebind_error "f" "other_f" "guest_f")
unfolding extend extend_methods
rebinds = refl

-- The extension that failed has still added `g`.
half_extended : (extend theirs ours).1 ≡ ("env", ("f", "guest_f") ∷ ("g", "guest_g") ∷ []) ∷ []
unfolding extend extend_methods
half_extended = refl

extend_example :
    (AgreeAll ours theirs
      × (r : Bindings) × (extend theirs ours ≡ (ok tt, r))
      × IsUnionAll ours theirs r)
    ⊎ (DifferAt ours theirs × (e : Error) × (r : Bindings) × (extend theirs ours ≡ (err e, r)))
extend_example = extend_cases theirs ours (refl, (refl, (refl, tt)), tt)
