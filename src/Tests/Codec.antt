-- ===== src/Tests/Codec.antt =====
-- A codec that writes a message as a brace, its numbers, the lengths of its texts, the texts, and a
-- brace. It keeps what encoding/json is relied on for.
use mathlib.Core.List.{reverse, reverse-cons, reverse-append, reverse-reverse}
use cramc.Prelude.{
  ℕ, ◌≡◌, refl, sym, ap, ◌∙◌, [], ◌∷◌, ◌++◌, append_assoc, length, take, drop, take-append,
  drop-append, Bytes, text_eq,
}
use cramc.Prelude.Outcome.{Outcome, ok, err, panic, blocked, invalid_input}
use cramc.Common.{IpcReqMessageBase, IpcServerControl, IpcSingleDocToBeSanitized, IpcMessageResp}
use cramc.Rpc.Codec.{Codec, IsCodec, trim_left, trim_space, is_space}

abbrev brace : Bytes
brace = b'}' ∷ []

abbrev pack : ℕ → ℕ → Bytes → Bytes → Bytes → Bytes → Bytes
pack n m a b c d =
    b'{' ∷ n ∷ m ∷ length a ∷ length b ∷ length c ∷ length d ∷ (a ++ (b ++ (c ++ (d ++ brace))))

pub record Parts : Type 0 where
  first : ℕ
  second : ℕ
  text0 : Bytes
  text1 : Bytes
  text2 : Bytes
  text3 : Bytes

abbrev unpack : Bytes → Outcome Parts
unpack (o ∷ n ∷ m ∷ i ∷ j ∷ k ∷ l ∷ rest) = ok (record {
  first = n;
  second = m;
  text0 = take i rest;
  text1 = take j (drop i rest);
  text2 = take k (drop j (drop i rest));
  text3 = take l (drop k (drop j (drop i rest)));
})
unpack _ = err invalid_input

abbrev parts : ℕ → ℕ → Bytes → Bytes → Bytes → Bytes → Parts
parts n m a b c d = record { first = n; second = m; text0 = a; text1 = b; text2 = c; text3 = d }

parts_cong :
    (n m : ℕ) {a a' b b' c c' d d' : Bytes}
    → a ≡ a'
    → b ≡ b'
    → c ≡ c'
    → d ≡ d'
    → parts n m a b c d ≡ parts n m a' b' c' d'
parts_cong n m {a} {a'} {b} {b'} {c} {c'} {d} {d'} e f g h =
    ap (λ x. parts n m x b c d) e
    ∙ ap (λ x. parts n m a' x c d) f
    ∙ ap (λ x. parts n m a' b' x d) g
    ∙ ap (λ x. parts n m a' b' c' x) h

unpack-pack : (n m : ℕ) (a b c d : Bytes) → unpack (pack n m a b c d) ≡ ok (parts n m a b c d)
unpack-pack n m a b c d =
    let e = drop-append a (b ++ (c ++ (d ++ brace))) (length a) refl in
    let f = ap (drop (length b)) e ∙ drop-append b (c ++ (d ++ brace)) (length b) refl in
    let g = ap (drop (length c)) f ∙ drop-append c (d ++ brace) (length c) refl in
    ap ok (
      parts_cong n m (take-append a (b ++ (c ++ (d ++ brace))) (length a) refl)
        (ap (take (length b)) e ∙ take-append b (c ++ (d ++ brace)) (length b) refl)
        (ap (take (length c)) f ∙ take-append c (d ++ brace) (length c) refl)
        (ap (take (length d)) g ∙ take-append d brace (length d) refl))

braced : (s : Bytes) → trim_space (b'{' ∷ (s ++ brace)) ≡ b'{' ∷ (s ++ brace)
unfolding trim_space trim_left is_space
braced s =
    ap (λ r. reverse (trim_left r)) (reverse-append (b'{' ∷ s) brace)
    ∙ reverse-cons b'}' (reverse (b'{' ∷ s))
    ∙ ap (λ t. t ++ brace) (reverse-reverse (b'{' ∷ s))

packed_texts : (a b c d : Bytes) → a ++ (b ++ (c ++ (d ++ brace))) ≡ (a ++ (b ++ (c ++ d))) ++ brace
packed_texts a b c d = sym (
    append_assoc a (b ++ (c ++ d)) brace
    ∙ ap (λ x. a ++ x) (append_assoc b (c ++ d) brace ∙ ap (λ x. b ++ x) (append_assoc c d brace)))

pack_trimmed : (n m : ℕ) (a b c d : Bytes) → trim_space (pack n m a b c d) ≡ pack n m a b c d
pack_trimmed n m a b c d =
    rw (packed_texts a b c d)
      (braced (n ∷ m ∷ length a ∷ length b ∷ length c ∷ length d ∷ (a ++ (b ++ (c ++ d)))))

abbrev as_request : Parts → IpcReqMessageBase
as_request p = record {
  client_id = p.text0;
  message_id = p.first;
  msg_type = p.text1;
  msg_data = p.text2;
}

abbrev as_control : Parts → IpcServerControl
as_control p = record { control_action = p.text0 }

abbrev as_doc : Parts → IpcSingleDocToBeSanitized
as_doc p = record {
  path = p.text0;
  action = p.text1;
  detection_name = p.text2;
  dest_module = p.text3;
}

abbrev as_resp : Parts → IpcMessageResp
as_resp p = record {
  client_id = p.text0;
  message_id = p.first;
  result_code = p.second;
  additional_msg = p.text1;
}

abbrev mapped : {A : Type 0} → (Parts → A) → Outcome Parts → Outcome A
mapped f (ok p) = ok (f p)
mapped f (err e) = err e
mapped f panic = panic
mapped f blocked = blocked

abbrev pub braces : Codec
braces = record {
  marshal_request = λ m. pack m.message_id 0 m.client_id m.msg_type m.msg_data [];
  unmarshal_request = λ s. mapped as_request (unpack s);
  marshal_control = λ m. pack 0 0 m.control_action [] [] [];
  unmarshal_control = λ s. mapped as_control (unpack s);
  marshal_doc = λ m. pack 0 0 m.path m.action m.detection_name m.dest_module;
  unmarshal_doc = λ s. mapped as_doc (unpack s);
  marshal_resp = λ m. pack m.message_id m.result_code m.client_id m.additional_msg [] [];
  unmarshal_resp = λ s. mapped as_resp (unpack s);
}

pub braces-IsCodec : IsCodec braces
unfolding text_eq
braces-IsCodec = record {
  request_back = λ m c t.
      ap (mapped as_request) (unpack-pack m.message_id 0 m.client_id m.msg_type m.msg_data []);
  request_trimmed = λ m. pack_trimmed m.message_id 0 m.client_id m.msg_type m.msg_data [];
  request_object = λ m. refl;
  control_back = λ m c. ap (mapped as_control) (unpack-pack 0 0 m.control_action [] [] []);
  doc_back = λ m p a n d.
      ap (mapped as_doc) (unpack-pack 0 0 m.path m.action m.detection_name m.dest_module);
  resp_back = λ m c a.
      ap (mapped as_resp)
        (unpack-pack m.message_id m.result_code m.client_id m.additional_msg [] []);
}
