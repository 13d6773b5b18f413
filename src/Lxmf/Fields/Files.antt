-- ===== src/Lxmf/Fields/Files.antt =====
-- Reading the array of files.
use lxmf_react_native_rust.Prelude.{
  ◌≤◌, ◌≡◌, refl, ap, ◌∙◌, List, [], ◌∷◌, ◌++◌, map, append-nil, append_assoc, arith, Bytes, length,
  length-map,
}
use lxmf_react_native_rust.Lxmf.Msgpack.{concat, mp_array, mp_read_array_len}
use lxmf_react_native_rust.Lxmf.Msgpack.Blobs.{mp_read_array_len-mp_array}
use lxmf_react_native_rust.Lxmf.Fields.{Named, pair_mp, Media, read_files, read_file_array}
use lxmf_react_native_rust.Lxmf.Fields.Image.{Fits, read_file-pair}

abbrev pub AllFit : List Named → Type 0
AllFit [] = Unit {0}
AllFit (x ∷ xs) = Fits x × AllFit xs

read_files-pairs :
    (m : Media) (xs : List Named) (t : Bytes)
    → AllFit xs
    → m.rest ≡ concat (map pair_mp xs) ++ t
    → read_files (length xs) m ≡ record m { files = m.files ++ xs; rest = t }
unfolding read_files concat
read_files-pairs m [] t h e = ground (arith, append-nil m.files)
read_files-pairs m (x ∷ xs) t h e =
    ap (read_files (length xs))
      (read_file-pair m x (concat (map pair_mp xs) ++ t) h.0 (e ∙ append_assoc (pair_mp x) _ t))
    ∙ read_files-pairs
        (record m { files = m.files ++ (x ∷ []); rest = concat (map pair_mp xs) ++ t }) xs t h.1
        refl
    ∙ ap (λ l. record m { files = l; rest = t }) (append_assoc m.files (x ∷ []) xs)

-- The array that `mp_array` writes of some files is read back as these files, behind those that were
-- there, and leaves what follows.
pub read_file_array-mp_array :
    (m : Media) (xs : List Named) (t : Bytes)
    → AllFit xs
    → length xs ≤ 65535
    → m.rest ≡ mp_array (map pair_mp xs) ++ t
    → read_file_array m (mp_read_array_len m.rest) ≡ record m { files = m.files ++ xs; rest = t }
unfolding read_file_array
read_file_array-mp_array m xs t h small e =
    ap (read_file_array m) (
      ap mp_read_array_len e
      ∙ mp_read_array_len-mp_array (map pair_mp xs) t (omega (arith, length-map xs pair_mp)))
    ∙ ap (λ n. read_files n (record m { rest = concat (map pair_mp xs) ++ t }))
        (length-map xs pair_mp)
    ∙ read_files-pairs (record m { rest = concat (map pair_mp xs) ++ t }) xs t h refl
