-- ===== src/Distributors/Samples.antt =====
-- A chunker for the tests: a chunk for each byte, behind a 0, and a last one that is 1.
use dtmc_base.Common.{
  ℕ, zero, suc, ◌+◌, ◌≡◌, ◌∙◌, refl, ap, sym, List, [], ◌∷◌, ◌++◌, Option, none, some, Result, ok,
  get_elem?, drop, arith, append_assoc, append-nil,
}
use dtmc_base.Distributors.Buffers.{Chunker}
use dtmc_base.Distributors.Chunks.{ChunkerLaws}

pub record ByteChunker : Type 0 where
  pub position : ℕ
  pub got : List ℕ

abbrev start : ByteChunker
start = record { position = 0; got = [] }

abbrev pub flagged : List ℕ → List (List ℕ)
flagged [] = (1 ∷ []) ∷ []
flagged (x ∷ bytes) = (0 ∷ x ∷ []) ∷ flagged bytes

abbrev exported : ByteChunker → Option (List ℕ) → Result (Option (List ℕ)) × ByteChunker
exported c none = (ok none, c)
exported c (some chunk) = (ok (some chunk), record c { position = c.position + 1 })

abbrev imported : ByteChunker → List ℕ → Result (Option (List ℕ)) × ByteChunker
imported c [] = (ok none, c)
imported c (flag ∷ []) = (ok (some c.got), c)
imported c (flag ∷ x ∷ rest) = (ok none, record c { got = c.got ++ (x ∷ []) })

abbrev pub chunker : Chunker ByteChunker
chunker = record {
  zeroed_chunker = start;
  chunker_init = λ c n. (none, start);
  chunker_reset = λ c. (none, start);
  chunker_export = λ c buffer. exported c (get_elem? (flagged buffer) c.position);
  chunker_import = imported;
}

module _ {A : Type 0} where
  get_elem?-drop :
      (k : ℕ) (l : List A) (x : A) (xs : List A) → drop k l ≡ x ∷ xs → get_elem? l k ≡ some x
  get_elem?-drop zero [] x xs e = cc
  get_elem?-drop zero (y ∷ l) x xs e = cc
  get_elem?-drop (suc k) [] x xs e = cc
  get_elem?-drop (suc k) (y ∷ l) x xs e = get_elem?-drop k l x xs e

  get_elem?-drop-none : (k : ℕ) (l : List A) → drop k l ≡ [] → get_elem? l k ≡ none
  get_elem?-drop-none zero [] e = refl
  get_elem?-drop-none zero (y ∷ l) e = cc
  get_elem?-drop-none (suc k) [] e = refl
  get_elem?-drop-none (suc k) (y ∷ l) e = get_elem?-drop-none k l e

  drop-tail : (k : ℕ) (l : List A) (x : A) (xs : List A) → drop k l ≡ x ∷ xs → drop (suc k) l ≡ xs
  drop-tail zero [] x xs e = cc
  drop-tail zero (y ∷ l) x xs e = cc
  drop-tail (suc k) [] x xs e = cc
  drop-tail (suc k) (y ∷ l) x xs e = drop-tail k l x xs e

abbrev Exporting : ByteChunker → List ℕ → List (List ℕ) → Type 0
Exporting c buffer chunks = drop c.position (flagged buffer) ≡ chunks

abbrev Importing : ByteChunker → List ℕ → List (List ℕ) → Type 0
Importing c buffer chunks = (rest : List ℕ) × (buffer ≡ c.got ++ rest) × (chunks ≡ flagged rest)

pub export_some_lem :
    (c : ByteChunker) (buffer chunk : List ℕ) (chunks : List (List ℕ))
    → Exporting c buffer (chunk ∷ chunks)
    → (c' : ByteChunker) × (chunker.chunker_export c buffer ≡ (ok (some chunk), c'))
      × Exporting c' buffer chunks
export_some_lem c buffer chunk chunks exporting =
    let e : c.position + 1 ≡ suc c.position = omega arith in
    (
      record c { position = c.position + 1 },
      ap (exported c) (get_elem?-drop c.position (flagged buffer) chunk chunks exporting),
      rw e (drop-tail c.position (flagged buffer) chunk chunks exporting),
    )

pub export_none_lem :
    (c : ByteChunker) (buffer : List ℕ)
    → Exporting c buffer []
    → (c' : ByteChunker) × (chunker.chunker_export c buffer ≡ (ok none, c'))
export_none_lem c buffer exporting =
    (c, ap (exported c) (get_elem?-drop-none c.position (flagged buffer) exporting))

head_or : List (List ℕ) → List ℕ
head_or [] = []
head_or (x ∷ xs) = x

tail_of : List (List ℕ) → List (List ℕ)
tail_of [] = []
tail_of (x ∷ xs) = xs

pub import_more_lem :
    (c : ByteChunker) (buffer chunk next : List ℕ) (chunks : List (List ℕ))
    → Importing c buffer (chunk ∷ next ∷ chunks)
    → (c' : ByteChunker) × (imported c chunk ≡ (ok none, c')) × Importing c' buffer (next ∷ chunks)
unfolding head_or tail_of
import_more_lem c buffer chunk next chunks ([], e, e') = absurd (cc)
import_more_lem c buffer chunk next chunks (x ∷ rest, e, e') = (
  record c { got = c.got ++ (x ∷ []) },
  ap (λ l. imported c (head_or l)) e',
  (rest, e ∙ sym (append_assoc c.got (x ∷ []) rest), ap tail_of e'),
)

pub import_last_lem :
    (c : ByteChunker) (buffer chunk : List ℕ)
    → Importing c buffer (chunk ∷ [])
    → (c' : ByteChunker) × (imported c chunk ≡ (ok (some buffer), c'))
unfolding head_or tail_of
import_last_lem c buffer chunk ([], e, e') = (
  c,
  ap (λ l. imported c (head_or l)) e' ∙ ap (λ b. (ok (some b), c)) (sym (e ∙ append-nil c.got)),
)
import_last_lem c buffer chunk (x ∷ [], e, e') = absurd (cc)
import_last_lem c buffer chunk (x ∷ y ∷ rest, e, e') = absurd (cc)

pub reset_import_lem :
    (c c' : ByteChunker) (buffer : List ℕ) (chunks : List (List ℕ))
    → chunker.chunker_reset c ≡ (none, c')
    → chunks ≡ flagged buffer
    → Importing c' buffer chunks
reset_import_lem c c' buffer chunks reset are = (buffer, ap (λ r. r.1.got ++ buffer) reset, are)

abbrev pub chunker-laws : ChunkerLaws chunker
chunker-laws = record {
  AreChunks = λ buffer chunks. chunks ≡ flagged buffer;
  Exporting = Exporting;
  Importing = Importing;
  export_some = export_some_lem;
  export_none = export_none_lem;
  reset_import = reset_import_lem;
  import_more = import_more_lem;
  import_last = import_last_lem;
}
