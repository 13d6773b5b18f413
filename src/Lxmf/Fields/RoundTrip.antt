-- ===== src/Lxmf/Fields/RoundTrip.antt =====
-- `mp_read_lxmf_fields` reads back what `build_fields_msgpack` wrote.
use lxmf_react_native_rust.Prelude.{
  ℕ, suc, ◌≤◌, ◌<◌, ◌≡◌, refl, ap, ◌∙◌, Option, none, some, List, [], ◌∷◌, ◌++◌, map, append_assoc,
  arith, Bytes, lt→ltb, length,
}
use lxmf_react_native_rust.Lxmf.Msgpack.{mp_array}
use lxmf_react_native_rust.Lxmf.Fields.{
  Json, Named, pair_mp, write_fields, finish_fields, image_fields, files_fields, image_of, files_of,
  media_object, fields_of_object, build_fields_msgpack, Media, read_field, loop_fields,
  mp_read_lxmf_fields,
}
use lxmf_react_native_rust.Lxmf.Fields.Image.{Fits, read_image-pair}
use lxmf_react_native_rust.Lxmf.Fields.Files.{AllFit, read_file_array-mp_array}

abbrev pub OptionFits : Option Named → Type 0
OptionFits none = Unit {0}
OptionFits (some x) = Fits x

abbrev media : Option Named → List Named → Bytes → Media
media i fs t = record { image = i; files = fs; rest = t }

read_image_field :
    (x : Named) (i : Option Named) (fs : List Named) (t : Bytes)
    → Fits x
    → read_field 0x06 (media i fs (pair_mp x ++ t)) ≡ media (some x) fs t
unfolding read_field
read_image_field x i fs t h = read_image-pair (media i fs (pair_mp x ++ t)) x t h refl

read_files_field :
    (xs : List Named) (i : Option Named) (t : Bytes)
    → AllFit xs
    → length xs ≤ 65535
    → read_field 0x05 (media i [] (mp_array (map pair_mp xs) ++ t)) ≡ media i xs t
unfolding read_field
read_files_field xs i t h small =
    read_file_array-mp_array (media i [] (mp_array (map pair_mp xs) ++ t)) xs t h small refl

loop_step :
    (n : ℕ) (m m' : Media) (key : ℕ) (i : Bytes)
    → key < 128
    → read_field key (record m { rest = i }) ≡ m'
    → loop_fields (suc n) m (key ∷ i) ≡ loop_fields n m' m'.rest
unfolding loop_fields
loop_step n m m' key i hk h = rw (lt→ltb key 0x80 hk) (ap (λ r. loop_fields n r r.rest) h)

loop_end : (m : Media) → loop_fields 0 m m.rest ≡ m
unfolding loop_fields
loop_end m = refl

-- The fields of an image and some files are read back as they are, and what follows them is left.
pub read_fields-finish :
    (image : Option Named) (files : List Named) (t : Bytes)
    → OptionFits image
    → AllFit files
    → length files ≤ 65535
    → mp_read_lxmf_fields (finish_fields (image_fields image ++ files_fields files) ++ t)
      ≡ record { image = image; files = files; rest = t }
unfolding mp_read_lxmf_fields finish_fields image_fields files_fields write_fields
read_fields-finish none [] t hi hf small = loop_end (media none [] t)
read_fields-finish none (f ∷ fs) t hi hf small =
    let body = mp_array (map pair_mp (f ∷ fs)) in
    loop_step 0 (media none [] _) (media none (f ∷ fs) t) 0x05 ((body ++ []) ++ t) (omega arith) (
      ap (λ b. read_field 0x05 (media none [] b)) (append_assoc body [] t)
      ∙ read_files_field (f ∷ fs) none t hf small)
    ∙ loop_end (media none (f ∷ fs) t)
read_fields-finish (some x) [] t hi hf small =
    loop_step 0 (media none [] _) (media (some x) [] t) 0x06 ((pair_mp x ++ []) ++ t) (omega arith)
      (ap (λ b. read_field 0x06 (media none [] b)) (append_assoc (pair_mp x) [] t)
        ∙ read_image_field x none [] t hi)
    ∙ loop_end (media (some x) [] t)
read_fields-finish (some x) (f ∷ fs) t hi hf small =
    let body = mp_array (map pair_mp (f ∷ fs)) in
    let mid = (0x05 ∷ (body ++ [])) ++ t in
    loop_step 1 (media none [] _) (media (some x) [] mid) 0x06
      ((pair_mp x ++ (0x05 ∷ (body ++ []))) ++ t) (omega arith)
      (ap (λ b. read_field 0x06 (media none [] b))
          (append_assoc (pair_mp x) (0x05 ∷ (body ++ [])) t)
        ∙ read_image_field x none [] mid hi)
    ∙ loop_step 0 (media (some x) [] mid) (media (some x) (f ∷ fs) t) 0x05 ((body ++ []) ++ t)
        (omega arith)
        (ap (λ b. read_field 0x05 (media (some x) [] b)) (append_assoc body [] t)
          ∙ read_files_field (f ∷ fs) (some x) t hf small)
    ∙ loop_end (media (some x) (f ∷ fs) t)

module _ (json : Json) where
  open json use {Value}

  -- The image and files that the media JSON stands for.
  abbrev pub wanted : Option Value → Option Named × List Named
  wanted none = (none, [])
  wanted (some obj) = (image_of json obj, files_of json obj)

  -- `build_fields_msgpack` writes exactly what the media JSON describes: the reader gets back its image
  -- and its files, and nothing where the JSON is missing or is not looked at; what follows the fields is
  -- left. Names are UTF-8 of at most 65535 bytes, blobs at most 16 MiB, files at most 65535.
  pub read_fields-build :
      (media_json : Option Bytes) (t : Bytes)
      → OptionFits (wanted (media_object json media_json)).0
      → AllFit (wanted (media_object json media_json)).1
      → length (wanted (media_object json media_json)).1 ≤ 65535
      → mp_read_lxmf_fields (build_fields_msgpack json media_json ++ t) ≡ record {
        image = (wanted (media_object json media_json)).0;
        files = (wanted (media_object json media_json)).1;
        rest = t;
      }
  unfolding build_fields_msgpack finish_fields image_fields files_fields
  read_fields-build media_json t hi hf small = of_object (media_object json media_json) hi hf small
    where
      of_object :
          (o : Option Value)
          → OptionFits (wanted o).0
          → AllFit (wanted o).1
          → length (wanted o).1 ≤ 65535
          → mp_read_lxmf_fields (fields_of_object json o ++ t)
            ≡ record { image = (wanted o).0; files = (wanted o).1; rest = t }
      of_object none hi hf small = read_fields-finish none [] t tt tt (omega arith)
      of_object (some obj) hi hf small =
          read_fields-finish (image_of json obj) (files_of json obj) t hi hf small
