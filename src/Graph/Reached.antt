-- ===== src/Graph/Reached.antt =====
-- What the breadth-first search finds: the points of the walks that are short enough.
use ferres_db.Base.{
  ℕ, zero, suc, ◌+◌, ◌≤◌, ◌<◌, ◌≡◌, refl, sym, ◌∙◌, subst, ◌⊎◌, true, false, Option, some, List, [],
  ◌∷◌, arith, All, leb, is_some, is_empty, if◌then◌else◌, inl, inr, Bool-cases, Option-cases,
}
use ferres_db.Base.Text.{Text, text_eq, text_eq_iff, text_eq_refl}
use ferres_db.Base.Dict
use ferres_db.Base.Dict.{Dict, get-insert}
use ferres_db.Error.{ok}
use ferres_db.Point.{Point, storage_id}
use ferres_db.Graph
use ferres_db.Graph.{
  Search, seen, visit, visit_all, relations_of, expand, expand_point, ended, rounds, pop_front,
  found_from, from_point, traverse_bfs,
}
use ferres_db.Graph.Levels.{
  keys_of, ids_of, IsSorted, Edge, Walk, Mid, Later, Later-refl, Later-trans, visit-Visited, marks,
  new_mark,
}

module _ (g : Text → Option Point) (max_depth : ℕ) (start : Text)
    (keyed : (k : Text) (p : Point) → g k ≡ some p → storage_id p ≡ k) where
  visit_all-Mid :
      (e : ℕ) (u : Text) (ids : List Text) (m : Dict ℕ) (s : Search)
      → e < max_depth
      → Walk g start e u
      → ((v : Text) (q : Point)
          → seen v ids ≡ true
          → is_empty v ≡ false
          → g v ≡ some q
          → Edge g u v)
      → Mid g max_depth start e m s
      → (m' : Dict ℕ) × Mid g max_depth start e m' (visit_all g (e + 1) s ids)
        × Later g max_depth start m s m' (visit_all g (e + 1) s ids)
        × ((v : Text) (q : Point)
            → seen v ids ≡ true
            → is_empty v ≡ false
            → g v ≡ some q
            → (k : ℕ) × (Dict.get v m' ≡ some k) × (k ≤ e + 1))
  unfolding visit_all seen
  visit_all-Mid e u [] m s room walk edge mid =
      (m, mid, Later-refl g max_depth start m s s refl, λ v q h. absurd cc)
  visit_all-Mid e u (id ∷ ids) m s room walk edge mid =
      let (m1, mid1, later1, reached) =
        visit-Visited g max_depth start e u id m s keyed room walk
          (λ q named there. edge id q (rw (text_eq_refl id) refl) named there) mid in
      let (m2, mid2, later2, rest) =
        visit_all-Mid e u ids m1 (visit g (e + 1) s id) room walk
          (λ v q h named there. edge v q (ground arith) named there) mid1 in
      (
        m2,
        mid2,
        Later-trans g max_depth start m s m1 (visit g (e + 1) s id) m2
            (visit_all g (e + 1) (visit g (e + 1) s id) ids) later1 later2,
        λ v q h named there. elim (Bool-cases (text_eq id v)) [
          | inl same ↦
              let is : id ≡ v = (text_eq_iff id v).0 same in
              let (k, marked, low) = reached q (rw is named) (rw is there) in
              (k, later2.extends v k (subst (λ x. Dict.get x m1 ≡ some k) is marked), low)
          | inr other ↦ rest v q (rw other at h) named there
        ],
      )

  -- The levels of the points that the next round may give are at most one above its depth.
  abbrev HeadBound : Dict ℕ → List (Text × ℕ) → Type 0
  HeadBound m [] = Unit
  HeadBound m ((id, e) ∷ queue) = (v : Text) (k : ℕ) → Dict.get v m ≡ some k → k ≤ e + 1

  -- What is done with a key of a level: it waits, it is at the limit, or its neighbours have levels.
  abbrev Settled : Dict ℕ → List (Text × ℕ) → Text → ℕ → Type 0
  Settled m queue v k =
      (seen v (keys_of queue) ≡ true)
      ⊎ ((max_depth ≤ k)
          ⊎ ((w : Text) → Edge g v w → (j : ℕ) × (Dict.get w m ≡ some j) × (j ≤ k + 1)))

  -- What holds between the rounds.
  record Inv (m : Dict ℕ) (s : Search) : Type 0 where
    marked_seen : (v : Text) (k : ℕ) → Dict.get v m ≡ some k → seen v s.visited ≡ true
    seen_marked :
        (v : Text) (p : Point)
        → seen v s.visited ≡ true
        → g v ≡ some p
        → (k : ℕ) × (Dict.get v m ≡ some k)
    results : (v : Text) → seen v (ids_of s.result) ≡ is_some (Dict.get v m)
    walks : (v : Text) (k : ℕ) → Dict.get v m ≡ some k → (k ≤ max_depth) × Walk g start k v
    queued : All (λ item. Dict.get item.0 m ≡ some item.1) s.queue
    sorted : IsSorted s.queue
    head : HeadBound m s.queue
    settled : (v : Text) (k : ℕ) → Dict.get v m ≡ some k → Settled m s.queue v k
    started : Dict.get start m ≡ some 0

  floor_head :
      (e : ℕ) (m : Dict ℕ) (queue : List (Text × ℕ))
      → ((v : Text) (k : ℕ) → Dict.get v m ≡ some k → k ≤ e + 1)
      → All (λ item. e ≤ item.1) queue
      → HeadBound m queue
  floor_head e m [] h low = tt
  floor_head e m ((id, d) ∷ queue) h (low, lows) =
      λ v k there. let near = h v k there in omega (arith, low)

  -- The state behind a pop.
  popped :
      (id : Text) (e : ℕ) (rest : List (Text × ℕ)) (m : Dict ℕ) (s : Search)
      → s.queue ≡ (id, e) ∷ rest
      → Inv m s
      → Mid g max_depth start e m (record s { queue = rest })
  popped id e rest m s is inv = record {
    marked_seen = inv.marked_seen;
    seen_marked = inv.seen_marked;
    results = inv.results;
    walks = inv.walks;
    queued = (subst (All (λ item. Dict.get item.0 m ≡ some item.1)) is inv.queued).1;
    sorted = (subst IsSorted is inv.sorted).1;
    bounded = subst (HeadBound m) is inv.head;
    floor = (subst IsSorted is inv.sorted).0;
  }

  Settled-tail :
      (id v : Text) (e k : ℕ) (rest : List (Text × ℕ)) (m : Dict ℕ)
      → Settled m ((id, e) ∷ rest) v k
      → (id ≡ v) ⊎ Settled m rest v k
  unfolding seen
  Settled-tail id v e k rest m (inl waits) = elim (Bool-cases (text_eq id v)) [
    | inl same ↦ inl ((text_eq_iff id v).0 same)
    | inr other ↦ inr (inl (rw other at waits))
  ]
  Settled-tail id v e k rest m (inr h) = inr (inr h)

  skipped-Inv :
      (id : Text) (e : ℕ) (rest : List (Text × ℕ)) (m : Dict ℕ) (s : Search)
      → s.queue ≡ (id, e) ∷ rest
      → Inv m s
      → ((w : Text) → e < max_depth → Edge g id w → ⊥)
      → Inv m (record s { queue = rest })
  skipped-Inv id e rest m s is inv lone =
      let mid = popped id e rest m s is inv in
      record {
        marked_seen = inv.marked_seen;
        seen_marked = inv.seen_marked;
        results = inv.results;
        walks = inv.walks;
        queued = mid.queued;
        sorted = mid.sorted;
        head = floor_head e m rest mid.bounded mid.floor;
        settled = λ v k h.
            elim (Settled-tail id v e k rest m
              (subst (λ q. Settled m q v k) is (inv.settled v k h))) [
                | inr other ↦ other
                | inl same ↦ elim (Bool-cases (leb max_depth k)) [
                  | inl far ↦ inr (inl (ground arith))
                  | inr near ↦ inr (
                      inr (λ w edge. absurd (
                        let at : Dict.get id m ≡ some e =
                          (subst (All (λ item. Dict.get item.0 m ≡ some item.1)) is inv.queued).0 in
                        let here : Dict.get v m ≡ some e =
                          subst (λ x. Dict.get x m ≡ some e) same at in
                        let level : k ≡ e = ground arith in
                        lone w (ground arith) (subst (λ x. Edge g x w) (sym same) edge))))
                ]
              ];
        started = inv.started;
      }

  expanded-Inv :
      (id : Text) (e : ℕ) (rest : List (Text × ℕ)) (m : Dict ℕ) (s : Search) (p : Point)
      → s.queue ≡ (id, e) ∷ rest
      → e < max_depth
      → g id ≡ some p
      → Inv m s
      → (m' : Dict ℕ) × Inv m'
          (visit_all g (e + 1) (record s { queue = rest }) (relations_of p.relations))
  expanded-Inv id e rest m s p is room there inv =
      let t : Search = record s { queue = rest } in
      let mid = popped id e rest m s is inv in
      let at : Dict.get id m ≡ some e =
        (subst (All (λ item. Dict.get item.0 m ≡ some item.1)) is inv.queued).0 in
      let (m', mid', later, reached) =
        visit_all-Mid e id (relations_of p.relations) m t room (inv.walks id e at).1
          (λ v q h named at_v. (p, q, there, h, named, at_v)) mid in
      let t' : Search = visit_all g (e + 1) t (relations_of p.relations) in
      let old_settled : (v : Text) (k : ℕ) → Dict.get v m ≡ some k → Settled m' t'.queue v k =
        λ v k h.
          elim (Settled-tail id v e k rest m
            (subst (λ q. Settled m q v k) is (inv.settled v k h))) [
              | inl same ↦ inr (
                  inr (λ w edge.
                    let (p', q, at_p, rel, named, at_q) = edge in
                    let here : Dict.get v m ≡ some e = subst (λ x. Dict.get x m ≡ some e) same at in
                    let level : k ≡ e = ground arith in
                    let there' : g v ≡ some p = subst (λ x. g x ≡ some p) same there in
                    let one : p' ≡ p = cc in
                    let (j, marked, low) =
                      reached w q (subst (λ x. seen w (relations_of x.relations) ≡ true) one rel)
                        named at_q in
                    (j, marked, rw level low)))
              | inr (inl waits) ↦ inl (later.waits v waits)
              | inr (inr (inl far)) ↦ inr (inl far)
              | inr (inr (inr done)) ↦ inr (
                  inr (λ w edge.
                    let (j, marked, low) = done w edge in (j, later.extends w j marked, low)))
            ] in
      (
        m',
        record {
          marked_seen = mid'.marked_seen;
          seen_marked = mid'.seen_marked;
          results = mid'.results;
          walks = mid'.walks;
          queued = mid'.queued;
          sorted = mid'.sorted;
          head = floor_head e m' t'.queue mid'.bounded mid'.floor;
          settled = λ v k h. elim (later.fresh v k h) [
            | inl old ↦ old_settled v k old
            | inr waits ↦ inl waits
          ];
          started = later.extends start 0 inv.started;
        },
      )

  expand-Inv :
      (id : Text) (e : ℕ) (rest : List (Text × ℕ)) (m : Dict ℕ) (s : Search)
      → s.queue ≡ (id, e) ∷ rest
      → Inv m s
      → (m' : Dict ℕ) × Inv m' (expand g max_depth id e (record s { queue = rest }))
  unfolding expand
  expand-Inv id e rest m s is inv = elim (Bool-cases (leb max_depth e)) [
    | inl far ↦ rw far (m, skipped-Inv id e rest m s is inv (λ w room edge. ground arith))
    | inr near ↦ rw near (elim (Option-cases (g id)) [
      | inl gone ↦ rw gone (
        m,
        skipped-Inv id e rest m s is inv
            (λ w room edge. let (p, q, at, rel, named, at_q) = edge in cc),
      )
      | inr (p, there) ↦ rw there (expanded-Inv id e rest m s p is (ground arith) there inv)
    ])
  ]

  rounds-Inv :
      (fuel : ℕ) (m : Dict ℕ) (s t : Search)
      → Inv m s
      → rounds g fuel max_depth s ≡ some t
      → (m' : Dict ℕ) × Inv m' t × (t.queue ≡ [])
  unfolding rounds
  rounds-Inv zero m s t inv h = out s.queue refl h
    where
      out :
          (q : List (Text × ℕ))
          → s.queue ≡ q
          → ended g q s ≡ some t
          → (m' : Dict ℕ) × Inv m' t × (t.queue ≡ [])
      out [] is h = let same : s ≡ t = cc in (m, subst (Inv m) same inv, rw (← same) is)
      out (x ∷ q) is h = absurd cc
  rounds-Inv (suc fuel) m s t inv h =
      out (λ m' s' inv' h'. rounds-Inv fuel m' s' t inv' h') s.queue refl h
    where
      out :
          ((m' : Dict ℕ) (s' : Search)
            → Inv m' s'
            → rounds g fuel max_depth s' ≡ some t
            → (m'' : Dict ℕ) × Inv m'' t × (t.queue ≡ []))
          → (q : List (Text × ℕ)) → s.queue ≡ q
          → pop_front g
              (λ id depth s'. rounds g fuel max_depth (expand g max_depth id depth s'))
              q
              s
            ≡ some t
          → (m' : Dict ℕ) × Inv m' t × (t.queue ≡ [])
      out more [] is h = let same : s ≡ t = cc in (m, subst (Inv m) same inv, rw (← same) is)
      out more ((id, e) ∷ q) is h =
          let (m', inv') = expand-Inv id e q m s is inv in
          more m' (expand g max_depth id e (record s { queue = q })) inv' h

  -- Where nothing waits, the keys with a level are those that a walk reaches.
  walked :
      (m : Dict ℕ) (s : Search) (n : ℕ) (v : Text)
      → Inv m s
      → s.queue ≡ []
      → n ≤ max_depth
      → Walk g start n v
      → (j : ℕ) × (Dict.get v m ≡ some j) × (j ≤ n)
  unfolding seen
  walked m s zero v inv ends room walk =
      (0, subst (λ x. Dict.get x m ≡ some 0) walk inv.started, omega arith)
  walked m s (suc n) v inv ends room (u, walk, edge) =
      let (j, marked, low) = walked m s n u inv ends (omega arith) walk in
      elim (subst (λ q. Settled m q u j) ends (inv.settled u j marked)) [
        | inl waits ↦ absurd cc
        | inr (inl far) ↦ absurd (omega arith)
        | inr (inr done) ↦ let (k, marked_v, near) = done v edge in (k, marked_v, omega arith)
      ]

  start-Inv :
      (p : Point)
      → storage_id p ≡ start
      → g start ≡ some p
      → Inv (Dict.insert {V = ℕ} start 0 []) (Graph.start g p)
  unfolding Graph.start seen Dict.get
  start-Inv p named there = record {
    marked_seen = λ v k h. let (same, zero_k) = only v k h in rw (named, same, text_eq_refl v) refl;
    seen_marked = λ v q h at. elim (Bool-cases (text_eq start v)) [
      | inl same ↦ (
        0,
        subst (λ x. Dict.get x (Dict.insert {V = ℕ} start 0 []) ≡ some 0)
            ((text_eq_iff start v).0 same) mark,
      )
      | inr other ↦ absurd (let h' = rw (named, other) at h in cc)
    ];
    results = λ v. rw named (by_start v);
    walks = λ v k h. let (same, zero_k) = only v k h in rw zero_k (omega arith, same);
    queued = (rw named mark, tt);
    sorted = (tt, tt);
    head = λ v k h. let (same, zero_k) = only v k h in omega (arith, zero_k);
    settled =
        λ v k h. let (same, zero_k) = only v k h in inl (rw (named, same, text_eq_refl v) refl);
    started = mark;
  }
    where
      mark : Dict.get start (Dict.insert {V = ℕ} start 0 []) ≡ some 0
      mark = new_mark g max_depth start start 0 []

      by_start :
          (v : Text)
          → (if text_eq start v then true else false)
            ≡ is_some (Dict.get v (Dict.insert {V = ℕ} start 0 []))
      by_start v = ground (arith, get-insert {V = ℕ} start v 0 [])

      only :
          (v : Text) (k : ℕ)
          → Dict.get v (Dict.insert {V = ℕ} start 0 []) ≡ some k
          → (start ≡ v) × (k ≡ 0)
      only v k h = elim (marks g max_depth start start v 0 k [] h) [
        | inl both ↦ both
        | inr none_yet ↦ absurd cc
      ]

  found_Walk :
      (fuel : ℕ) (v : Text) (p : Point) (ps : List Point)
      → storage_id p ≡ start
      → g start ≡ some p
      → found_from g (rounds g fuel max_depth (Graph.start g p)) ≡ some (ok ps)
      → (seen v (ids_of ps) ≡ true → (n : ℕ) × (n ≤ max_depth) × Walk g start n v)
        × ((n : ℕ) → n ≤ max_depth → Walk g start n v → seen v (ids_of ps) ≡ true)
  found_Walk fuel v p ps named there h =
      elim (Option-cases (rounds g fuel max_depth (Graph.start g p))) [
        | inl out ↦ absurd (let h' = rw out at h in cc)
        | inr (t, runs) ↦
            let h' : some (ok t.result) ≡ some (ok ps) = rw runs at h in
            let same : t.result ≡ ps = cc in
            let (m, inv, ends) =
              rounds-Inv fuel (Dict.insert {V = ℕ} start 0 []) (Graph.start g p) t
                (start-Inv p named there) runs in
            let levels : seen v (ids_of ps) ≡ is_some (Dict.get v m) =
              subst (λ qs. seen v (ids_of qs) ≡ is_some (Dict.get v m)) same (inv.results v) in
            (
              λ found. elim (Option-cases (Dict.get v m)) [
                | inl gone ↦ absurd (let e = rw gone at levels in cc)
                | inr (k, marked) ↦ let (low, walk) = inv.walks v k marked in (k, low, walk)
              ],
              λ n low walk.
                  let (j, marked, near) = walked m t n v inv ends low walk in
                  levels ∙ rw marked refl,
            )
      ]

module _ (g : Text → Option Point)
    (keyed : (k : Text) (p : Point) → g k ≡ some p → storage_id p ≡ k) where
  -- The search from a point, over points that stand under their storage ids, finds the points that
  -- a walk over relations of existing points reaches in at most the given number of steps, and no
  -- other.
  pub traverse_bfs-Walk :
      (fuel max_depth : ℕ) (start_id v : Text) (ps : List Point)
      → traverse_bfs g fuel start_id max_depth ≡ some (ok ps)
      → (seen v (ids_of ps) ≡ true → (n : ℕ) × (n ≤ max_depth) × Walk g start_id n v)
        × ((n : ℕ) → n ≤ max_depth → Walk g start_id n v → seen v (ids_of ps) ≡ true)
  unfolding traverse_bfs
  traverse_bfs-Walk fuel max_depth start_id v ps h = elim (Bool-cases (is_empty start_id)) [
    | inl nothing ↦ absurd (let h' = rw nothing at h in cc)
    | inr given ↦ elim (Option-cases (g start_id)) [
      | inl gone ↦ absurd (let h' = rw (given, gone) at h in cc)
      | inr (p, there) ↦
          found_Walk g max_depth start_id keyed fuel v p ps (keyed start_id p there) there
            (rw (given, there) at h)
    ]
  ]
