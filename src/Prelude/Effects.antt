-- ===== src/Prelude/Effects.antt =====
-- Stateful code that can fail: the state is returned on every path, errors included.
use mathlib.Core.Path.{◌≡◌, refl}
use lucet.Prelude.Results.{Result, ok, err, panic}

abbrev pub Eff : Type 0 → Type 0 → Type 0 → Type 0
Eff S E A = S → Result E A × S

abbrev pub continue : {S E A B : Type 0} → Result E A × S → (A → Eff S E B) → Result E B × S
continue (ok a, s) f = f a s
continue (err e, s) f = (err e, s)
continue (panic, s) f = (panic, s)

infixl 5 ◌>>=◌ ◌>>◌
abbrev pub ◌>>=◌ : {S E A B : Type 0} → Eff S E A → (A → Eff S E B) → Eff S E B
◌>>=◌ m f s = continue (m s) f

abbrev pub ◌>>◌ : {S E B : Type 0} → Eff S E (Unit {0}) → Eff S E B → Eff S E B
◌>>◌ m k s = continue (m s) (λ _. k)

abbrev pub pure : {S E A : Type 0} → A → Eff S E A
pure a s = (ok a, s)

abbrev pub lift : {S E A : Type 0} → Result E A → Eff S E A
lift r s = (r, s)

abbrev pub get : {S E : Type 0} → Eff S E S
get s = (ok s, s)

abbrev pub put : {S E : Type 0} → S → Eff S E (Unit {0})
put s' s = (ok tt, s')

-- A successful bind: its first part succeeded, and the rest ran in the state that it left.
pub continue-eq-ok :
    {S E A B : Type 0} (t : Result E A × S) (f : A → Eff S E B) {b : B}
    → (continue t f).0 ≡ ok b
    → (a : A) × (t.0 ≡ ok a) × (continue t f ≡ f a t.1)
continue-eq-ok (ok a, s) f h = (a, refl, refl)
continue-eq-ok (err e, s) f h = cc
continue-eq-ok (panic, s) f h = cc
