-- ===== src/Node/Inbox.antt =====
-- What becomes of a payload that `send_to` or `send_group` signed at the node that receives it.
use lxmf_react_native_rust.Prelude.{
  ℕ, ◌+◌, ◌≤◌, ◌≡◌, refl, sym, ap, ◌∙◌, ◌⊎◌, inl, inr, Bool, true, false, ◌&&◌, Option, none, some,
  List, [], ◌∷◌, ◌++◌, append_assoc, arith, Bytes, ltb, leb, ◌==◌, starts_with, length, take,
  length-append,
}
use lxmf_react_native_rust.Node.Send.{payload_of}
use lxmf_react_native_rust.Node.{Network}
use lxmf_react_native_rust.Lxmf.Fields.RoundTrip.{OptionFits, wanted}
use lxmf_react_native_rust.Lxmf.Fields.Files.{AllFit}
use lxmf_react_native_rust.Lxmf.Fields.{Json, media_object, build_fields_msgpack}
use lxmf_react_native_rust.Lxmf.Msgpack.{max_len}
use lxmf_react_native_rust.Prelude.Map.{bytes_Eq, lookup}
use lxmf_react_native_rust.Lxmf.Payload.{
  looks_like_rpc_response, Message, encode_lxmf_msgpack, decode_lxmf_payload, event_of,
  lxmf_event_from_bytes, verify_lxmf_signature, signed_payload,
}
use lxmf_react_native_rust.Lxmf.Payload.RoundTrip.{
  drop_append, encode_not_empty, decode_lxmf_payload-encode,
}
use lxmf_react_native_rust.Lxmf.Payload.Signed.{take_append, verify_lxmf_signature_lem}
use lxmf_react_native_rust.Node.Receive.{source_of}

pub starts_with-front :
    (xs ys ps : Bytes) → length ps ≤ length xs → starts_with (xs ++ ys) ps ≡ starts_with xs ps
starts_with-front xs ys [] h = ends (xs ++ ys) ∙ sym (ends xs)
  where
    ends : (zs : Bytes) → starts_with zs [] ≡ true
    ends [] = refl
    ends (z ∷ zs) = refl
starts_with-front [] ys (p ∷ ps) h = elim h [ ]
starts_with-front (x ∷ xs) ys (p ∷ ps) h =
    ap (λ b. x == p && b) (starts_with-front xs ys ps (omega (arith, h)))

-- A payload by its four parts, of which the three of the header have their lengths.
module _ (dest src sig msgpack : Bytes) (hd : length dest ≡ 16) (hs : length src ≡ 16)
    (hg : length sig ≡ 64) (hm : 1 ≤ length msgpack) where
  abbrev pub whole : Bytes
  whole = dest ++ (src ++ (sig ++ msgpack))

  pub length-whole : length whole ≡ 96 + length msgpack
  length-whole = omega (
    arith,
    length-append dest (src ++ (sig ++ msgpack)),
    length-append src (sig ++ msgpack),
    length-append sig msgpack,
  )

  pub is_lxmf :
      starts_with dest (b'{' ∷ []) ≡ false
      → starts_with dest (0 ∷ b'z' ∷ b'l' ∷ []) ≡ false
      → looks_like_rpc_response whole ≡ false
  unfolding looks_like_rpc_response
  is_lxmf a b =
      let front = src ++ (sig ++ msgpack) in
      let long : ltb (length whole) 97 ≡ false = ground (arith, length-whole) in
      rw
        (
          long,
          starts_with-front dest front (b'{' ∷ []) (omega arith),
          starts_with-front dest front (0 ∷ b'z' ∷ b'l' ∷ []) (omega arith),
          a,
          b,
        )
        refl

  pub source_of-whole : source_of whole ≡ src
  unfolding source_of
  source_of-whole =
      let long : leb 32 (length whole) ≡ true = ground (arith, length-whole) in
      rw long (
        ap (take 16) (drop_append 16 dest (src ++ (sig ++ msgpack)) hd)
        ∙ take_append 16 src (sig ++ msgpack) hs)

  whole_head : whole ≡ (dest ++ (src ++ sig)) ++ msgpack
  whole_head =
      ap (λ z. dest ++ z) (sym (append_assoc src sig msgpack))
      ∙ sym (append_assoc dest (src ++ sig) msgpack)

  length_head : length (dest ++ (src ++ sig)) ≡ 96
  length_head = omega (arith, length-append dest (src ++ sig), length-append src sig)

module _ (json : Json) where
  -- The message that a content and its media stand for.
  abbrev pub arrived : Bytes → Bytes → Option Bytes → ℕ → Option Bytes → Message
  arrived src content media_json now group_dest = record {
    source = src;
    title = [];
    body = content;
    image = (wanted json (media_object json media_json)).0;
    files = (wanted json (media_object json media_json)).1;
    timestamp = now;
    group_dest = group_dest;
  }

  -- The content and the media are within the limits of their formats.
  pub record Fits (content : Bytes) (media_json : Option Bytes) : Type 0 where
    pub content_fits : length content ≤ max_len
    pub image_fits : OptionFits (wanted json (media_object json media_json)).0
    pub files_fit : AllFit (wanted json (media_object json media_json)).1
    pub few_files : length (wanted json (media_object json media_json)).1 ≤ 65535

module _ (net : Network) (json : Json) where
  open net use {DestinationDesc, PrivateIdentity, sign, verify}

  module _ (identity : PrivateIdentity) (dest src content : Bytes) (media_json : Option Bytes)
      (ts : ℕ) (hl : (m : Bytes) → length (sign identity m) ≡ 64) (hd : length dest ≡ 16)
      (hs : length src ≡ 16) where
    abbrev pub msgpack : Bytes
    msgpack = encode_lxmf_msgpack ts [] content (build_fields_msgpack json media_json)

    abbrev pub sig : Bytes
    sig = sign identity (dest ++ (src ++ msgpack))

    pub not_empty : 1 ≤ length msgpack
    not_empty = encode_not_empty ts [] content (build_fields_msgpack json media_json)

    pub sent-whole :
        payload_of net json identity dest src content media_json ts
        ≡ whole dest src sig msgpack hd hs (hl _) not_empty
    unfolding payload_of signed_payload
    sent-whole = refl

    pub event-arrived :
        (now : ℕ) (group_dest : Option Bytes)
        → Fits json content media_json
        → lxmf_event_from_bytes src
            (payload_of net json identity dest src content media_json ts)
            group_dest
            now
          ≡ arrived json src content media_json now group_dest
    unfolding lxmf_event_from_bytes event_of
    event-arrived now group_dest fits =
        let p = payload_of net json identity dest src content media_json ts in
        ap (event_of src p now group_dest) (
          ap decode_lxmf_payload
            (sent-whole ∙ whole_head dest src sig msgpack hd hs (hl _) not_empty)
          ∙ decode_lxmf_payload-encode json (dest ++ (src ++ sig)) ts [] content media_json
              (length_head dest src sig msgpack hd hs (hl _) not_empty) (omega arith)
              fits.content_fits fits.image_fits fits.files_fit fits.few_files)

    pub verdict_not_false :
        (peers : List (Bytes × DestinationDesc))
        → ((desc : DestinationDesc)
            → lookup src peers ≡ some desc
            → (m : Bytes) → verify desc m (sign identity m) ≡ true)
        → (v : Option Bool)
        → verify_lxmf_signature verify
            (payload_of net json identity dest src content media_json ts)
            peers
          ≡ v
        → (v ≡ none) ⊎ (v ≡ some true)
    verdict_not_false peers known v e = by_entry (lookup src peers) refl
      where
        checked :
            verify_lxmf_signature verify
              (payload_of net json identity dest src content media_json ts)
              peers
            ≡ (elim (lookup src peers) [
              | none ↦ none
              | some desc ↦ some (verify desc (dest ++ (src ++ msgpack)) sig)
            ])
        checked =
            ap (λ z. verify_lxmf_signature verify z peers) sent-whole
            ∙ verify_lxmf_signature_lem verify dest src sig msgpack peers hd hs (hl _) not_empty

        by_entry :
            (o : Option DestinationDesc) → lookup src peers ≡ o → (v ≡ none) ⊎ (v ≡ some true)
        by_entry none h = inl (sym e ∙ checked ∙ rw h refl)
        by_entry (some desc) h =
            inr (sym e ∙ checked ∙ rw h (ap some (known desc h (dest ++ (src ++ msgpack)))))
