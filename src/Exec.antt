-- ===== src/Exec.antt =====
-- Methods on `&mut self` that may fail. What was written before an error stays written.
use ferres_db.Base.{List, [], ◌∷◌}
use ferres_db.Error.{Result, ok, err}

abbrev pub Exec : Type 0 → Type 0 → Type 0
Exec S A = S → Result A × S

abbrev pub resume : {S A B : Type 0} → Result A × S → (A → Exec S B) → Result B × S
resume (ok a, s) f = f a s
resume (err e, s) f = (err e, s)

infixl 5 ◌>>=◌ ◌>>◌
abbrev pub ◌>>=◌ : {S A B : Type 0} → Exec S A → (A → Exec S B) → Exec S B
◌>>=◌ m f s = resume (m s) f

abbrev pub ◌>>◌ : {S B : Type 0} → Exec S (Unit {0}) → Exec S B → Exec S B
m >> n = m >>= λ _. n

abbrev pub pure : {S A : Type 0} → A → Exec S A
pure a s = (ok a, s)

-- A test on the state that may end the method.
abbrev pub check : {S : Type 0} → (S → Result (Unit {0})) → Exec S (Unit {0})
check f s = (f s, s)

abbrev pub gets : {S A : Type 0} → (S → Result A) → Exec S A
gets f s = (f s, s)

abbrev pub modify : {S : Type 0} → (S → S) → Exec S (Unit {0})
modify f s = (ok tt, f s)

-- `for x in xs { body(x)?; }`
unfoldable pub each : {S A : Type 0} → (A → Exec S (Unit {0})) → List A → Exec S (Unit {0})
each body [] = pure tt
each body (x ∷ xs) = body x >> each body xs
