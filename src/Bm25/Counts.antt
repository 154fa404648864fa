-- ===== src/Bm25/Counts.antt =====
-- The totals and the document frequencies are those of the documents in the index.
use ferres_db.Base.{
  ℕ, ◌+◌, ◌-◌, ◌≡◌, refl, true, Option, none, some, List, [], ◌∷◌, arith, if◌then◌else◌, is_empty,
  length, unwrap_or, ◌%◌, ◌^◌, not, Bool-cases, inl, inr,
}
use ferres_db.Base.Text.{Text, text_eq, text_eq_iff, text_eq_refl, trim, split_whitespace}
use ferres_db.Base.Dict
use ferres_db.Base.Dict.{
  Dict, IsDistinct, weigh, weight, contains_key, get-insert, get-remove, insert-IsDistinct,
  remove-IsDistinct, weigh-remove, weigh-insert,
}
use ferres_db.Bm25.{
  Doc, Bm25Index, new, count_terms, term_freqs, lower_count, release_terms, claim_terms, drop_found,
  remove_document, add_tokens, tokenize, index_document,
}

-- 1 if the document has the term.
abbrev pub has_term : Text → Doc → ℕ
has_term t doc = if contains_key t doc.freqs then 1 else 0

pub record IsCounted (ix : Bm25Index) : Type 0 where
  pub distinct : IsDistinct ix.docs
  pub n_docs : ix.n ≡ weigh (λ _. 1) ix.docs
  pub lengths : ix.total_len ≡ weigh (λ doc. doc.len) ix.docs
  pub frequencies : (t : Text) → unwrap_or (Dict.get t ix.doc_freq) 0 ≡ weigh (has_term t) ix.docs
  pub terms_distinct :
      (id : Text) (doc : Doc) → Dict.get id ix.docs ≡ some doc → IsDistinct doc.freqs

pub new-IsCounted : IsCounted new
unfolding new Dict.get
new-IsCounted = record {
  distinct = tt;
  n_docs = refl;
  lengths = refl;
  frequencies = λ t. refl;
  terms_distinct = λ id doc e. cc;
}

-- How often a term counts in a table of terms: once or not at all.
abbrev in_terms : Text → Dict ℕ → ℕ
in_terms s ts = if contains_key s ts then 1 else 0

lower_count_lem :
    (s t : Text) (df : Dict ℕ)
    → unwrap_or (Dict.get s (lower_count t (Dict.get t df) df)) 0
      ≡ unwrap_or (Dict.get s df) 0 - (if text_eq t s then 1 else 0)
lower_count_lem s t df =
    ground (arith, text_eq_iff t s, get-insert t s (unwrap_or (Dict.get t df) 0 - 1) df)

release_terms_lem :
    (s : Text) (ts df : Dict ℕ)
    → IsDistinct ts
    → unwrap_or (Dict.get s (release_terms ts df)) 0 ≡ unwrap_or (Dict.get s df) 0 - in_terms s ts
unfolding release_terms Dict.get
release_terms_lem s [] df h = omega arith
release_terms_lem s ((t, c) ∷ ts) df h = ground (
  arith,
  text_eq_iff t s,
  h.0,
  lower_count_lem s t df,
  release_terms_lem s ts (lower_count t (Dict.get t df) df),
)

claim_terms_lem :
    (s : Text) (ts df : Dict ℕ)
    → IsDistinct ts
    → unwrap_or (Dict.get s (claim_terms ts df)) 0 ≡ unwrap_or (Dict.get s df) 0 + in_terms s ts
unfolding claim_terms Dict.get
claim_terms_lem s [] df h = omega arith
claim_terms_lem s ((t, c) ∷ ts) df h = ground (
  arith,
  text_eq_iff t s,
  h.0,
  claim_terms_lem s ts (Dict.insert t (unwrap_or (Dict.get t df) 0 + 1) df),
  get-insert t s (unwrap_or (Dict.get t df) 0 + 1) df,
)

drop_found-IsCounted :
    (id : Text) (r : Option Doc) (ix : Bm25Index)
    → Dict.get id ix.docs ≡ r
    → IsCounted ix
    → IsCounted (drop_found id r ix) × (Dict.get id (drop_found id r ix).docs ≡ none)
unfolding drop_found
drop_found-IsCounted id none ix e v = (v, e)
drop_found-IsCounted id (some doc) ix e v = (
  record {
    distinct = remove-IsDistinct id ix.docs v.distinct;
    n_docs = ground (arith, e, v.n_docs, weigh-remove (λ _. 1) id ix.docs v.distinct);
    lengths = ground (arith, e, v.lengths, weigh-remove (λ (d : Doc). d.len) id ix.docs v.distinct);
    frequencies = λ t. ground (
      arith,
      e,
      v.frequencies t,
      release_terms_lem t doc.freqs ix.doc_freq (v.terms_distinct id doc e),
      weigh-remove (has_term t) id ix.docs v.distinct,
    );
    terms_distinct = λ j d f. ground (arith, get-remove id j ix.docs, v.terms_distinct j d);
  },
  rw (get-remove id id ix.docs, text_eq_refl id),
)

count_terms-IsDistinct :
    (freqs : Dict ℕ) (ts : List Text) → IsDistinct freqs → IsDistinct (count_terms freqs ts)
unfolding count_terms
count_terms-IsDistinct freqs [] h = h
count_terms-IsDistinct freqs (t ∷ ts) h =
    count_terms-IsDistinct (Dict.insert t ((unwrap_or (Dict.get t freqs) 0 + 1) % 2 ^ 32) freqs) ts
      (insert-IsDistinct t ((unwrap_or (Dict.get t freqs) 0 + 1) % 2 ^ 32) freqs h)

term_freqs-IsDistinct : (ts : List Text) → IsDistinct (term_freqs ts)
unfolding term_freqs
term_freqs-IsDistinct ts = count_terms-IsDistinct [] ts tt

add_tokens-IsCounted :
    (id : Text) (tokens : List Text) (ix : Bm25Index)
    → Dict.get id ix.docs ≡ none
    → IsCounted ix
    → IsCounted (add_tokens id tokens ix)
unfolding add_tokens
add_tokens-IsCounted id tokens ix e v =
    let doc : Doc = record { len = length tokens; freqs = term_freqs tokens } in
    record {
      distinct = insert-IsDistinct id doc ix.docs v.distinct;
      n_docs = ground (arith, v.n_docs, weigh-insert (λ _. 1) id doc ix.docs e);
      lengths = ground (arith, v.lengths, weigh-insert (λ (d : Doc). d.len) id doc ix.docs e);
      frequencies = λ t. ground (
        arith,
        v.frequencies t,
        claim_terms_lem t (term_freqs tokens) ix.doc_freq (term_freqs-IsDistinct tokens),
        weigh-insert (has_term t) id doc ix.docs e,
      );
      terms_distinct = λ j d f.
          ground (
            arith,
            get-insert id j doc ix.docs,
            v.terms_distinct j d,
            term_freqs-IsDistinct tokens,
          );
    }

-- Removing a document, present or not, keeps the totals and the frequencies exact and leaves no
-- document with its id.
pub remove_document-IsCounted :
    (id : Text) (ix : Bm25Index)
    → IsCounted ix
    → IsCounted (remove_document id ix) × (Dict.get id (remove_document id ix).docs ≡ none)
unfolding remove_document
remove_document-IsCounted id ix v = drop_found-IsCounted id (Dict.get id ix.docs) ix refl v

tokenize-nil : (lower : Text → Text) (s : Text) → is_empty s ≡ true → tokenize lower s ≡ []
unfolding tokenize split_whitespace
tokenize-nil lower [] h = refl
tokenize-nil lower (c ∷ s) h = cc

contains-add_tokens :
    (id : Text) (tokens : List Text) (ix : Bm25Index)
    → contains_key id (add_tokens id tokens ix).docs ≡ true
unfolding add_tokens
contains-add_tokens id tokens ix = rw (
  get-insert id id (record { len = length tokens; freqs = term_freqs tokens }) ix.docs,
  text_eq_refl id,
)

-- Indexing a text, also over an older version of its document, keeps the totals and the
-- frequencies exact; the document is then in the index exactly when its text has a token.
pub index_document-IsCounted :
    (lower : Text → Text) (id s : Text) (ix : Bm25Index)
    → IsCounted ix
    → IsCounted (index_document lower id s ix)
      × (contains_key id (index_document lower id s ix).docs
          ≡ not (is_empty (tokenize lower (trim s))))
unfolding index_document
index_document-IsCounted lower id s ix v =
    let (counted, gone) = drop_found-IsCounted id (Dict.get id ix.docs) ix refl v in
    let dropped : Bm25Index = drop_found id (Dict.get id ix.docs) ix in
    let tokens : List Text = tokenize lower (trim s) in
    elim (Bool-cases (is_empty (trim s))) [
      | inl blank ↦ rw (blank, tokenize-nil lower (trim s) blank) (counted, rw gone)
      | inr full ↦ elim (Bool-cases (is_empty tokens)) [
        | inl e ↦ rw (full, e) (counted, rw gone)
        | inr e ↦
            rw (full, e)
              (
                add_tokens-IsCounted id tokens dropped gone counted,
                contains-add_tokens id tokens dropped,
              )
      ]
    ]
