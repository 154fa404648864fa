-- ===== src/Graph/Levels.antt =====
-- What holds while the neighbours of one point are visited: each point has a level, the depth at
-- which it came on the queue.
use ferres_db.Base.{
  ℕ, zero, suc, ◌+◌, ◌≤◌, ◌<◌, ◌≡◌, refl, sym, ap, ◌∙◌, subst, ◌⊎◌, true, false, Option, none, some,
  List, [], ◌∷◌, ◌++◌, arith, All, is_some, is_empty, if◌then◌else◌, inl, inr, Bool-cases,
  Option-cases,
}
use ferres_db.Base.Text.{Text, text_eq, text_eq_iff, text_eq_refl}
use ferres_db.Base.Dict
use ferres_db.Base.Dict.{Dict, get-insert}
use ferres_db.Point.{Point, storage_id}
use ferres_db.Graph.{Search, seen, arrive, visit, relations_of}

abbrev pub keys_of : List (Text × ℕ) → List Text
keys_of [] = []
keys_of ((id, depth) ∷ queue) = id ∷ keys_of queue

abbrev pub ids_of : List Point → List Text
ids_of [] = []
ids_of (p ∷ ps) = storage_id p ∷ ids_of ps

-- The depths of a queue do not fall.
abbrev pub IsSorted : List (Text × ℕ) → Type 0
IsSorted [] = Unit
IsSorted ((id, depth) ∷ queue) = All (λ item. depth ≤ item.1) queue × IsSorted queue

keys_of-append :
    (k : Text) (queue : List (Text × ℕ)) (id : Text) (depth : ℕ)
    → seen k (keys_of (queue ++ (id, depth) ∷ []))
      ≡ (if seen k (keys_of queue) then true else text_eq id k)
unfolding seen
keys_of-append k [] id depth = ground arith
keys_of-append k ((j, e) ∷ queue) id depth = ground (arith, keys_of-append k queue id depth)

ids_of-append :
    (k : Text) (ps : List Point) (p : Point)
    → seen k (ids_of (ps ++ p ∷ []))
      ≡ (if seen k (ids_of ps) then true else text_eq (storage_id p) k)
unfolding seen
ids_of-append k [] p = ground arith
ids_of-append k (q ∷ ps) p = ground (arith, ids_of-append k ps p)

All-snoc {ℓ} :
    {A : Type 0} (P : A → Type ℓ) (xs : List A) (x : A) → All P xs → P x → All P (xs ++ x ∷ [])
All-snoc P [] x h hx = (hx, tt)
All-snoc P (y ∷ xs) x (h, hs) hx = (h, All-snoc P xs x hs hx)

pub All-map {ℓ κ} :
    {A : Type 0} (P : A → Type ℓ) (Q : A → Type κ) (xs : List A)
    → ((x : A) → P x → Q x)
    → All P xs
    → All Q xs
All-map P Q [] f h = tt
All-map P Q (x ∷ xs) f (h, hs) = (f x h, All-map P Q xs f hs)

IsSorted-snoc :
    (queue : List (Text × ℕ)) (id : Text) (depth : ℕ)
    → IsSorted queue
    → All (λ item. item.1 ≤ depth) queue
    → IsSorted (queue ++ (id, depth) ∷ [])
IsSorted-snoc [] id depth h le = (tt, tt)
IsSorted-snoc ((j, e) ∷ queue) id depth (h, hs) (le, les) =
    (All-snoc (λ item. e ≤ item.1) queue (id, depth) h le, IsSorted-snoc queue id depth hs les)

module _ (g : Text → Option Point) where
  -- The relation `u` to `v` of two points that exist.
  abbrev pub Edge : Text → Text → Type 0
  Edge u v =
      (p q : Point) × (g u ≡ some p)
      × (seen v (relations_of p.relations) ≡ true)
      × (is_empty v ≡ false)
      × (g v ≡ some q)

  -- A walk of so many relations.
  abbrev pub Walk : Text → ℕ → Text → Type 0
  Walk start zero v = start ≡ v
  Walk start (suc n) v = (u : Text) × Walk start n u × Edge u v

  pub Walk-next :
      (start : Text) (n : ℕ) (u v : Text) → Walk start n u → Edge u v → Walk start (n + 1) v
  Walk-next start n u v w e =
      let next : suc n ≡ n + 1 = omega arith in subst (λ k. Walk start k v) next (u, w, e)

  module _ (max_depth : ℕ) (start : Text) where
    -- The levels that are given so far, while the neighbours of a point of depth `e` are visited.
    pub record Mid (e : ℕ) (m : Dict ℕ) (s : Search) : Type 0 where
      pub marked_seen : (v : Text) (k : ℕ) → Dict.get v m ≡ some k → seen v s.visited ≡ true
      pub seen_marked :
          (v : Text) (p : Point)
          → seen v s.visited ≡ true
          → g v ≡ some p
          → (k : ℕ) × (Dict.get v m ≡ some k)
      pub results : (v : Text) → seen v (ids_of s.result) ≡ is_some (Dict.get v m)
      pub walks : (v : Text) (k : ℕ) → Dict.get v m ≡ some k → (k ≤ max_depth) × Walk start k v
      pub queued : All (λ item. Dict.get item.0 m ≡ some item.1) s.queue
      pub sorted : IsSorted s.queue
      pub bounded : (v : Text) (k : ℕ) → Dict.get v m ≡ some k → k ≤ e + 1
      pub floor : All (λ item. e ≤ item.1) s.queue

    -- From one state to a later one.
    pub record Later (m : Dict ℕ) (s : Search) (m' : Dict ℕ) (s' : Search) : Type 0 where
      pub extends : (v : Text) (k : ℕ) → Dict.get v m ≡ some k → Dict.get v m' ≡ some k
      pub fresh :
          (v : Text) (k : ℕ)
          → Dict.get v m' ≡ some k
          → (Dict.get v m ≡ some k) ⊎ (seen v (keys_of s'.queue) ≡ true)
      pub waits : (v : Text) → seen v (keys_of s.queue) ≡ true → seen v (keys_of s'.queue) ≡ true

    pub Later-refl : (m : Dict ℕ) (s s' : Search) → s'.queue ≡ s.queue → Later m s m s'
    Later-refl m s s' same = record {
      extends = λ v k h. h;
      fresh = λ v k h. inl h;
      waits = λ v h. ap (λ q. seen v (keys_of q)) same ∙ h;
    }

    pub Later-trans :
        (m : Dict ℕ) (s : Search) (m' : Dict ℕ) (s' : Search) (m'' : Dict ℕ) (s'' : Search)
        → Later m s m' s'
        → Later m' s' m'' s''
        → Later m s m'' s''
    Later-trans m s m' s' m'' s'' a c = record {
      extends = λ v k h. c.extends v k (a.extends v k h);
      fresh = λ v k h. elim (c.fresh v k h) [
        | inr waiting ↦ inr waiting
        | inl old ↦ elim (a.fresh v k old) [
          | inl older ↦ inl older
          | inr waiting ↦ inr (c.waits v waiting)
        ]
      ];
      waits = λ v h. c.waits v (a.waits v h);
    }

    -- What the visit of a neighbour ends with.
    abbrev Visited : ℕ → Dict ℕ → Search → Text → Search → Type 0
    Visited e m s id s' =
        (m' : Dict ℕ) × Mid e m' s'
        × Later m s m' s'
        × ((q : Point)
            → is_empty id ≡ false
            → g id ≡ some q
            → (k : ℕ) × (Dict.get id m' ≡ some k) × (k ≤ e + 1))

    -- The levels with one more key.
    pub marks :
        (id v : Text) (e k : ℕ) (m : Dict ℕ)
        → Dict.get v (Dict.insert id e m) ≡ some k
        → ((id ≡ v) × (k ≡ e)) ⊎ (Dict.get v m ≡ some k)
    marks id v e k m h = elim (Bool-cases (text_eq id v)) [
      | inl same ↦ inl ((text_eq_iff id v).0 same, ground (arith, get-insert id v e m))
      | inr other ↦ inr (ground (arith, get-insert id v e m))
    ]

    stays :
        (id v : Text) (e k : ℕ) (m : Dict ℕ)
        → Dict.get id m ≡ none
        → Dict.get v m ≡ some k
        → Dict.get v (Dict.insert id e m) ≡ some k
    stays id v e k m new h = elim (Bool-cases (text_eq id v)) [
      | inl same ↦ absurd (
          let e : id ≡ v = (text_eq_iff id v).0 same in
          let there : Dict.get id m ≡ some k = rw e h in cc)
      | inr other ↦ ground (arith, get-insert id v e m)
    ]

    pub new_mark : (id : Text) (e : ℕ) (m : Dict ℕ) → Dict.get id (Dict.insert id e m) ≡ some e
    new_mark id e m = ground (arith, get-insert id id e m, text_eq_refl id)

    arrive_nothing-Visited :
        (e : ℕ) (id : Text) (m : Dict ℕ) (s : Search)
        → g id ≡ none
        → Mid e m s
        → Visited e m s id (record s { visited = id ∷ s.visited })
    unfolding seen
    arrive_nothing-Visited e id m s is mid = (
      m,
      record {
        marked_seen = λ v k h. ground (arith, mid.marked_seen v k h);
        seen_marked = λ v p h there. elim (Bool-cases (text_eq id v)) [
          | inl same ↦ absurd (
              let e : id ≡ v = (text_eq_iff id v).0 same in
              let gone : g v ≡ none = rw (sym e) is in cc)
          | inr other ↦ mid.seen_marked v p (rw other at h) there
        ];
        results = mid.results;
        walks = mid.walks;
        queued = mid.queued;
        sorted = mid.sorted;
        bounded = mid.bounded;
        floor = mid.floor;
      },
      Later-refl m s (record s { visited = id ∷ s.visited }) refl,
      λ q named there. absurd (cc),
    )

    arrive-Mid :
        (e : ℕ) (u id : Text) (m : Dict ℕ) (s : Search) (p : Point)
        → storage_id p ≡ id
        → e < max_depth
        → Walk start e u
        → Edge u id
        → Dict.get id m ≡ none
        → Mid e m s
        → Mid e
            (Dict.insert id (e + 1) m)
            (arrive g (e + 1) (some p) (record s { visited = id ∷ s.visited }))
    unfolding seen
    arrive-Mid e u id m s p named room walk edge new mid = record {
      marked_seen = λ v k h. elim (marks id v (e + 1) k m h) [
        | inl (same, is) ↦ rw same (rw (text_eq_refl v) refl)
        | inr old ↦ ground (arith, mid.marked_seen v k old)
      ];
      seen_marked = λ v q h there. elim (Bool-cases (text_eq id v)) [
        | inl same ↦ (
          e + 1,
          subst (λ x. Dict.get x (Dict.insert id (e + 1) m) ≡ some (e + 1))
              ((text_eq_iff id v).0 same) (new_mark id (e + 1) m),
        )
        | inr other ↦
            let (k, is) = mid.seen_marked v q (rw other at h) there in
            (k, stays id v (e + 1) k m new is)
      ];
      results = λ v. elim (Bool-cases (text_eq id v)) [
        | inl same ↦ ground (arith, ids_of-append v s.result p, named, get-insert id v (e + 1) m)
        | inr other ↦
            ground
              (arith, ids_of-append v s.result p, named, get-insert id v (e + 1) m, mid.results v)
      ];
      walks = λ v k h. elim (marks id v (e + 1) k m h) [
        | inl (same, is) ↦ (
          omega arith,
          subst (Walk start k) same
              (subst (λ n. Walk start n id) (sym is) (Walk-next start e u id walk edge)),
        )
        | inr old ↦ mid.walks v k old
      ];
      queued =
          All-snoc (λ item. Dict.get item.0 (Dict.insert id (e + 1) m) ≡ some item.1) s.queue
            (storage_id p, e + 1)
            (All-map (λ item. Dict.get item.0 m ≡ some item.1)
              (λ item. Dict.get item.0 (Dict.insert id (e + 1) m) ≡ some item.1) s.queue
              (λ item h. stays id item.0 (e + 1) item.1 m new h) mid.queued)
            (rw named (new_mark id (e + 1) m));
      sorted = IsSorted-snoc s.queue (storage_id p) (e + 1) mid.sorted (
          All-map (λ item. Dict.get item.0 m ≡ some item.1) (λ item. item.1 ≤ e + 1) s.queue
            (λ item h. mid.bounded item.0 item.1 h) mid.queued);
      bounded = λ v k h. elim (marks id v (e + 1) k m h) [
        | inl (same, is) ↦ omega arith
        | inr old ↦ mid.bounded v k old
      ];
      floor = All-snoc (λ item. e ≤ item.1) s.queue (storage_id p, e + 1) mid.floor (omega arith);
    }

    arrive-Later :
        (e : ℕ) (id : Text) (m : Dict ℕ) (s : Search) (p : Point)
        → storage_id p ≡ id
        → Dict.get id m ≡ none
        → Later m s
            (Dict.insert id (e + 1) m)
            (arrive g (e + 1) (some p) (record s { visited = id ∷ s.visited }))
    unfolding seen
    arrive-Later e id m s p named new = record {
      extends = λ v k h. stays id v (e + 1) k m new h;
      fresh = λ v k h. elim (marks id v (e + 1) k m h) [
        | inl (same, is) ↦
            inr ground
              (arith, keys_of-append v s.queue (storage_id p) (e + 1), named, same, text_eq_refl v)
        | inr old ↦ inl old
      ];
      waits = λ v h. ground (arith, keys_of-append v s.queue (storage_id p) (e + 1));
    }

    pub visit-Visited :
        (e : ℕ) (u id : Text) (m : Dict ℕ) (s : Search)
        → ((k : Text) (p : Point) → g k ≡ some p → storage_id p ≡ k)
        → e < max_depth
        → Walk start e u
        → ((q : Point) → is_empty id ≡ false → g id ≡ some q → Edge u id)
        → Mid e m s
        → Visited e m s id (visit g (e + 1) s id)
    unfolding visit
    visit-Visited e u id m s keyed room walk edge mid = elim (Bool-cases (is_empty id)) [
      | inl nothing ↦ rw nothing (m, mid, Later-refl m s s refl, λ q named there. absurd cc)
      | inr named ↦ elim (Bool-cases (seen id s.visited)) [
        | inl known ↦
            rw (named, known)
              (
                m,
                mid,
                Later-refl m s s refl,
                λ q n there.
                    let (k, is) = mid.seen_marked id q known there in (k, is, mid.bounded id k is),
              )
        | inr new ↦
            let there : visit g (e + 1) s id
                ≡ arrive g (e + 1) (g id) (record s { visited = id ∷ s.visited }) =
              rw (named, new) refl in
            subst (Visited e m s id) (sym there) (reach (g id) refl new named)
      ]
    ]
      where
        reach :
            (o : Option Point)
            → g id ≡ o
            → seen id s.visited ≡ false
            → is_empty id ≡ false
            → Visited e m s id (arrive g (e + 1) o (record s { visited = id ∷ s.visited }))
        reach none is new named = arrive_nothing-Visited e id m s is mid
        reach (some p) is new named =
            let unmarked : Dict.get id m ≡ none = elim (Option-cases (Dict.get id m)) [
              | inl gone ↦ gone
              | inr (k, there) ↦ absurd (let old = mid.marked_seen id k there in cc)
            ] in
            let same : storage_id p ≡ id = keyed id p is in
            (
              Dict.insert id (e + 1) m,
              arrive-Mid e u id m s p same room walk (edge p named is) unmarked mid,
              arrive-Later e id m s p same unmarked,
              λ q n there. (e + 1, new_mark id (e + 1) m, omega arith),
            )
