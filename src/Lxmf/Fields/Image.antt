-- ===== src/Lxmf/Fields/Image.antt =====
-- Reading one (string, blob) pair, and the image field.
use lxmf_react_native_rust.Prelude.{
  ◌≤◌, ◌≡◌, refl, ap, ◌∙◌, true, some, [], ◌∷◌, ◌++◌, append_assoc, Bytes, length,
}
use lxmf_react_native_rust.Lxmf.Utf8.{is_utf8}
use lxmf_react_native_rust.Lxmf.Msgpack.{max_len, mp_read_bytes, mp_bin, mp_str}
use lxmf_react_native_rust.Lxmf.Msgpack.Blobs.{mp_read_bytes-mp_bin, mp_read_bytes-mp_str}
use lxmf_react_native_rust.Lxmf.Fields.{
  Named, jpeg, file_name, pair_mp, Media, or_default, read_pair, join_reads, read_second,
  after_pair_tag, set_image, push_file, read_image, read_file,
}

-- A name that is UTF-8 and a length within what the formats carry.
abbrev pub Fits : Named → Type 0
Fits (name, contents) = (length name ≤ 65535) × (is_utf8 name ≡ true) × (length contents ≤ max_len)

pub read_pair-pair :
    (x : Named) (t : Bytes) → Fits x → read_pair ((mp_str x.0 ++ mp_bin x.1) ++ t) ≡ (some x, t)
unfolding read_pair
read_pair-pair (name, contents) t (short, _, small) =
    ap read_second (
      ap mp_read_bytes (append_assoc (mp_str name) (mp_bin contents) t)
      ∙ mp_read_bytes-mp_str name (mp_bin contents ++ t) short)
    ∙ ap (join_reads (some name)) (mp_read_bytes-mp_bin contents t small)

tag_read :
    (x : Named) (t : Bytes)
    → after_pair_tag (pair_mp x ++ t) ≡ some ((mp_str x.0 ++ mp_bin x.1) ++ t)
unfolding after_pair_tag pair_mp
tag_read x t = refl

or_default_utf8 : (s d : Bytes) → is_utf8 s ≡ true → or_default s d ≡ s
unfolding or_default
or_default_utf8 s d h = rw h refl

pub read_image-pair :
    (m : Media) (x : Named) (t : Bytes)
    → Fits x
    → m.rest ≡ pair_mp x ++ t
    → read_image m ≡ record m { image = some x; rest = t }
unfolding read_image set_image
read_image-pair m x t h e =
    rw (e, tag_read x t, read_image)
      (ap (set_image m) (read_pair-pair x t h)
        ∙ ap (λ n. record m { image = some (n, x.1); rest = t }) (or_default_utf8 x.0 jpeg h.1))

pub read_file-pair :
    (m : Media) (x : Named) (t : Bytes)
    → Fits x
    → m.rest ≡ pair_mp x ++ t
    → read_file m ≡ record m { files = m.files ++ (x ∷ []); rest = t }
unfolding read_file push_file
read_file-pair m x t h e =
    rw (e, tag_read x t, read_file)
      (ap (push_file m) (read_pair-pair x t h)
        ∙ ap (λ n. record m { files = m.files ++ ((n, x.1) ∷ []); rest = t })
            (or_default_utf8 x.0 file_name h.1))
