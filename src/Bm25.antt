-- ===== src/Bm25.antt =====
-- The tables of the BM25 index (crates/core/src/bm25.rs): documents, document frequencies and the
-- two totals. `lower` is `str::to_lowercase`. The counters are those of entries held in memory and
-- are not wrapped.
pub mod Counts
use ferres_db.Base.{
  ℕ, ◌+◌, ◌-◌, ◌%◌, ◌^◌, Bool, true, false, not, Option, none, some, List, [], ◌∷◌, map,
  if◌then◌else◌, is_empty, length, keep, unwrap_or,
}
use ferres_db.Base.Text.{Text, trim, split_whitespace}
use ferres_db.Base.Dict
use ferres_db.Base.Dict.{Dict}

pub record Doc : Type 0 where
  pub len : ℕ
  pub freqs : Dict ℕ

pub record Bm25Index : Type 0 where
  pub docs : Dict Doc
  pub doc_freq : Dict ℕ
  pub n : ℕ
  pub total_len : ℕ

unfoldable pub new : Bm25Index
new = record { docs = []; doc_freq = []; n = 0; total_len = 0 }

-- Counts are `u32`.
unfoldable pub count_terms : Dict ℕ → List Text → Dict ℕ
count_terms freqs [] = freqs
count_terms freqs (t ∷ ts) =
    count_terms (Dict.insert t ((unwrap_or (Dict.get t freqs) 0 + 1) % 2 ^ 32) freqs) ts

unfoldable pub term_freqs : List Text → Dict ℕ
unfolding count_terms
term_freqs tokens = count_terms [] tokens

-- One pass over the terms of a document: `get_mut` and `saturating_sub(1)`, then `or_insert(0) += 1`.
abbrev pub lower_count : Text → Option ℕ → Dict ℕ → Dict ℕ
lower_count t none df = df
lower_count t (some k) df = Dict.insert t (k - 1) df

unfoldable pub release_terms : Dict ℕ → Dict ℕ → Dict ℕ
release_terms [] df = df
release_terms ((t, c) ∷ ts) df = release_terms ts (lower_count t (Dict.get t df) df)

unfoldable pub claim_terms : Dict ℕ → Dict ℕ → Dict ℕ
claim_terms [] df = df
claim_terms ((t, c) ∷ ts) df = claim_terms ts (Dict.insert t (unwrap_or (Dict.get t df) 0 + 1) df)

-- What both operations do with a document that is found.
unfoldable pub drop_found : Text → Option Doc → Bm25Index → Bm25Index
unfolding release_terms
drop_found id none ix = ix
drop_found id (some doc) ix = record {
  docs = Dict.remove id ix.docs;
  doc_freq = release_terms doc.freqs ix.doc_freq;
  n = ix.n - 1;
  total_len = ix.total_len - doc.len;
}

unfoldable pub remove_document : Text → Bm25Index → Bm25Index
remove_document id ix = drop_found id (Dict.get id ix.docs) ix

unfoldable pub add_tokens : Text → List Text → Bm25Index → Bm25Index
unfolding term_freqs claim_terms
add_tokens id tokens ix = record {
  docs = Dict.insert id (record { len = length tokens; freqs = term_freqs tokens }) ix.docs;
  doc_freq = claim_terms (term_freqs tokens) ix.doc_freq;
  n = ix.n + 1;
  total_len = ix.total_len + length tokens;
}

module _ (lower : Text → Text) where
  unfoldable pub tokenize : Text → List Text
  tokenize s = keep (λ t. not (is_empty t)) (map lower (split_whitespace s))

  unfoldable pub index_document : Text → Text → Bm25Index → Bm25Index
  index_document id s ix =
      let dropped : Bm25Index = drop_found id (Dict.get id ix.docs) ix in
      if is_empty (trim s)
      then dropped
      else if is_empty (tokenize (trim s))
      then dropped
      else add_tokens id (tokenize (trim s)) dropped
