-- ===== src/Store/Messages.antt =====
-- rust-core/src/store.rs: `fetch_messages`, what the history shows of the rows. The JSON text, base64
-- and hexadecimal writing belong to libraries: they are the fields of the record `Text`.
use lxmf_react_native_rust.Prelude.{
  ℕ, suc, ◌^◌, ◌<◌, ◌≡◌, refl, ap, Bool, false, Option, none, some, List, [], ◌∷◌, ◌++◌, map, Bytes,
  take,
}
use lxmf_react_native_rust.Prelude.Int.{ℤ, pos, as_i64-pos}
use lxmf_react_native_rust.Lxmf.Fields.{Named}
use lxmf_react_native_rust.Lxmf.Payload.{unwrap_or_default}
use lxmf_react_native_rust.Store.{
  MessageRow, MessageStore, insert_inbound_message, files_text, title_text, fst_of, snd_of,
}

pub record Text : Type 1 where
  pub Value : Type 0
  pub from_str : Bytes → Option Value
  pub encode : Bytes → Bytes
  -- lower case
  pub hex : Bytes → Bytes

module _ (text : Text) where
  open text use {Value, encode, hex, from_str}

  pub record Shown : Type 0 where
    pub id : ℕ
    pub source : Bytes
    pub dest : Bytes
    pub title : Bytes
    pub body : Bytes
    pub outbound : Bool
    pub timestamp : ℤ
    pub acked : Bool
    pub image : Option Named
    pub files : Option Value

  -- The key is there only with both a MIME type and data.
  unfoldable pub shown_image : Option Bytes → Option Bytes → Option Named
  shown_image (some mime) (some contents) = some (mime, encode contents)
  shown_image _ _ = none

  unfoldable pub shown_files : Option Bytes → Option Value
  shown_files none = none
  shown_files (some files_j) = from_str files_j

  unfoldable pub show_row : MessageRow → Shown
  unfolding shown_image shown_files unwrap_or_default
  show_row r = record {
    id = r.id;
    source = hex r.source_hash;
    dest = hex r.dest_hash;
    title = encode (unwrap_or_default r.title);
    body = encode r.body;
    outbound = r.outbound;
    timestamp = r.timestamp;
    acked = r.acked;
    image = shown_image r.image_mime r.image_data;
    files = shown_files r.files_json;
  }

  -- ORDER BY id DESC
  unfoldable pub descending : List MessageRow → List MessageRow
  descending [] = []
  descending (r ∷ rs) = descending rs ++ (r ∷ [])

  unfoldable pub fetch_messages : MessageStore → ℕ → List Shown
  unfolding descending show_row
  fetch_messages s limit = map show_row (take limit (descending s.messages))

  descending-snoc :
      (rs : List MessageRow) (r : MessageRow) → descending (rs ++ (r ∷ [])) ≡ r ∷ descending rs
  unfolding descending
  descending-snoc [] r = refl
  descending-snoc (x ∷ rs) r = ap (λ k. k ++ (x ∷ [])) (descending-snoc rs r)

  unwrap_title : (title : Bytes) → unwrap_or_default (title_text title) ≡ title
  unfolding unwrap_or_default title_text
  unwrap_title [] = refl
  unwrap_title (b ∷ bs) = refl

  image_kept :
      (image : Option Named)
      → shown_image (fst_of image) (snd_of image)
        ≡ (elim image [ none ↦ none | some (mime, contents) ↦ some (mime, encode contents) ])
  unfolding shown_image fst_of snd_of
  image_kept none = refl
  image_kept (some (mime, contents)) = refl

  files_kept :
      (to_json : List Named → Bytes) (value : List Named → Value) (files : List Named)
      → ((fs : List Named) → from_str (to_json fs) ≡ some (value fs))
      → shown_files (files_text to_json files)
        ≡ (elim files [ [] ↦ none | f ∷ fs ↦ some (value (f ∷ fs)) ])
  unfolding shown_files files_text
  files_kept to_json value [] h = refl
  files_kept to_json value (f ∷ fs) h = h (f ∷ fs)

  -- A received message that is inserted is the first that is fetched, before one less of the earlier
  -- ones, if its time is below 2^63: with its source, destination, title, body and time, as received and not acknowledged, with
  -- its image and its files if it has them. JSON text is assumed to be parsed to what was written.
  pub fetch_messages-insert :
      (to_json : List Named → Bytes) (value : List Named → Value) (s : MessageStore)
      (source dest title body : Bytes) (image : Option Named) (files : List Named)
      (timestamp limit : ℕ)
      → ((fs : List Named) → from_str (to_json fs) ≡ some (value fs))
      → timestamp < 2 ^ 63
      → let (s', id) =
          insert_inbound_message to_json s source dest title body image files timestamp in
        fetch_messages s' (suc limit)
        ≡ record {
          id = id;
          source = hex source;
          dest = hex dest;
          title = encode title;
          body = encode body;
          outbound = false;
          timestamp = pos timestamp;
          acked = false;
          image = elim image [ none ↦ none | some (mime, contents) ↦ some (mime, encode contents) ];
          files = elim files [ [] ↦ none | f ∷ fs ↦ some (value (f ∷ fs)) ];
        }
          ∷ fetch_messages s limit
  unfolding fetch_messages insert_inbound_message show_row
  fetch_messages-insert to_json value s source dest title body image files timestamp limit h k =
      rw
        (
          descending-snoc s.messages,
          unwrap_title title,
          image_kept image,
          files_kept to_json value files h,
          as_i64-pos timestamp k,
        )
        refl
