-- ===== src/Engine/Appends.antt =====
-- The rows of appends, insertions and removals of one call, against the entries that they write.
use ferres_db.Base.{
  ℕ, ◌+◌, ◌≡◌, refl, sym, ap, ◌∙◌, subst, Bool, List, [], ◌∷◌, ◌++◌, arith, length, if◌then◌else◌,
  Bool-cases, inl, inr, append-nil, append_assoc,
}
use ferres_db.Base.Text.{Text}
use ferres_db.Base.Dict.{contains_key}
use ferres_db.Error.{Result, ok, err, point_not_found}
use ferres_db.Exec.{resume}
use ferres_db.Point.{Point}
use ferres_db.Collection
use ferres_db.Collection.{Collection}
use ferres_db.Recovery.{apply, replay}
use ferres_db.Recovery.Replay.{IsPlain}
use ferres_db.Wal.Entry.{WalEntry, WalOperation}
use ferres_db.Wal.Log.{Wal, AppendIo, append_op}
use ferres_db.Wal.Holds.{Holds, append_op-Holds, append_op-config}
use ferres_db.Engine.{
  Env, AnyCollection, plain, append_all, upserts, deletes, insert_points, insert_point,
  remove_points, remove_point_from_all, missed,
}

pub resume-ok :
    {S A B : Type 0} (r : Result A × S) (k : A → S → Result B × S) (v : B) (t : S)
    → resume r k ≡ (ok v, t)
    → (a : A) × (s : S) × (r ≡ (ok a, s)) × (k a s ≡ (ok v, t))
resume-ok (ok a, s) k v t h = (a, s, refl, h)
resume-ok (err e, s) k v t h = cc

-- The entries that a row of appends writes.
unfoldable pub entries : (ℕ → AppendIo) → ℕ → List WalOperation → List WalEntry
entries io i [] = []
entries io i (op ∷ ops) =
    record { timestamp = (io i).timestamp; operation = op } ∷ entries io (i + 1) ops

pub length-entries :
    (io : ℕ → AppendIo) (i : ℕ) (ops : List WalOperation) → length (entries io i ops) ≡ length ops
unfolding entries
length-entries io i [] = refl
length-entries io i (op ∷ ops) = omega (arith, length-entries io (i + 1) ops)

module _ (env : Env) where
  pub append_all-Holds :
      (io : ℕ → AppendIo) (i : ℕ) (ops : List WalOperation) (w v : Wal) (es : List WalEntry)
      → Holds env.codec w es
      → append_all env io i ops w ≡ (ok tt, v)
      → Holds env.codec v (es ++ entries io i ops) × (v.config ≡ w.config)
  unfolding append_all entries
  append_all-Holds io i [] w v es h p =
      let e : w ≡ v = cc in
      (
        subst (λ x. Holds env.codec x (es ++ [])) e
            (subst (Holds env.codec w) (sym (append-nil es)) h),
        ap (λ x. x.config) (sym e),
      )
  append_all-Holds io i (op ∷ ops) w v es h p =
      let (u, s, first, rest) = resume-ok (append_op env.codec (io i) op w) _ tt v p in
      let e : WalEntry = record { timestamp = (io i).timestamp; operation = op } in
      let done : (append_op env.codec (io i) op w).0 ≡ ok tt = ap (λ r. r.0) first in
      let (held, config) =
        append_all-Holds io (i + 1) ops s v (es ++ e ∷ [])
          (subst (λ x. Holds env.codec x (es ++ e ∷ [])) (ap (λ r. r.1) first)
            (append_op-Holds env.codec (io i) op w es h done))
          rest in
      (
        subst (Holds env.codec v) (append_assoc es (e ∷ []) (entries io (i + 1) ops)) held,
        config
            ∙ ap (λ r. r.1.config) (sym first)
            ∙ append_op-config env.codec (io i) op w es h done,
      )

  pub insert_points-plain :
      (io : ℕ → AppendIo) (i now : ℕ) (ps : List Point) (c : Collection env.backend)
      (ac : AnyCollection env.backend)
      → insert_points env now ps (plain c) ≡ (ok tt, ac)
      → ac ≡ plain (replay env.backend (entries io i (upserts env ps)) c)
  unfolding insert_points insert_point entries replay apply
  insert_points-plain io i now [] c ac h = ap (λ r. r.1) (sym h)
  insert_points-plain io i now (p ∷ ps) c ac h =
      let (u, s, first, rest) = resume-ok (insert_point env.backend now p (plain c)) _ tt ac h in
      let is : plain (Collection.insert env.backend p c).1 ≡ s = ap (λ r. r.1) first in
      insert_points-plain io (i + 1) now ps (Collection.insert env.backend p c).1 ac
        (ap (insert_points env now ps) is ∙ rest)

  -- The removals of a row of keys, and the number of those that were missing.
  pub remove_points-plain :
      (io : ℕ → AppendIo) (i n : ℕ) (keys : List Text) (c : Collection env.backend)
      → (m : ℕ) × (remove_points env keys n (plain c)
          ≡ (ok m, plain (replay env.backend (entries io i (deletes env keys)) c)))
  unfolding remove_points remove_point_from_all entries replay apply
  remove_points-plain io i n [] c = (n, refl)
  remove_points-plain io i n (key ∷ keys) c = elim (Bool-cases (contains_key key c.points)) [
    | inl there ↦
        let d : Collection env.backend = (Collection.remove env.backend key c).1 in
        let (m, h) = remove_points-plain io (i + 1) n keys d in
        let fine : Collection.remove env.backend key c ≡ (ok tt, d) =
          unfold Collection.remove in rw there refl in
        (
          m,
          ap
                (λ r.
                  missed env (r.0, plain r.1)
                    (λ miss. remove_points env keys (if miss then n + 1 else n)))
                fine
              ∙ h,
        )
    | inr gone ↦
        let d : Collection env.backend = (Collection.remove env.backend key c).1 in
        let (m, h) = remove_points-plain io (i + 1) (n + 1) keys d in
        let lost : Collection.remove env.backend key c ≡ (err (point_not_found key), d) =
          unfold Collection.remove in rw gone refl in
        (
          m,
          ap
                (λ r.
                  missed env (r.0, plain r.1)
                    (λ miss. remove_points env keys (if miss then n + 1 else n)))
                lost
              ∙ h,
        )
  ]

  pub upserts-IsPlain :
      (accepts : Point → Bool) (io : ℕ → AppendIo) (i : ℕ) (ps : List Point)
      → IsPlain env.backend accepts (entries io i (upserts env ps))
  unfolding entries
  upserts-IsPlain accepts io i [] = tt
  upserts-IsPlain accepts io i (p ∷ ps) = (tt, upserts-IsPlain accepts io (i + 1) ps)

  pub deletes-IsPlain :
      (accepts : Point → Bool) (io : ℕ → AppendIo) (i : ℕ) (keys : List Text)
      → IsPlain env.backend accepts (entries io i (deletes env keys))
  unfolding entries
  deletes-IsPlain accepts io i [] = tt
  deletes-IsPlain accepts io i (key ∷ keys) = (tt, deletes-IsPlain accepts io (i + 1) keys)

  pub IsPlain-append :
      (accepts : Point → Bool) (es fs : List WalEntry)
      → IsPlain env.backend accepts es
      → IsPlain env.backend accepts fs
      → IsPlain env.backend accepts (es ++ fs)
  IsPlain-append accepts [] fs h k = k
  IsPlain-append accepts (e ∷ es) fs (h, hs) k = (h, IsPlain-append accepts es fs hs k)

  pub length-upserts : (ps : List Point) → length (upserts env ps) ≡ length ps
  length-upserts [] = refl
  length-upserts (p ∷ ps) = omega (arith, length-upserts ps)
