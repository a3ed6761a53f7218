-- ===== src/Protocol/Arrays/Counted.antt =====
-- internal/protocol: what a topic and a message share, a name and a counted list with tags behind it.
use distributed_messaging_sy.Common.{
  ◌^◌, ◌<◌, ◌≡◌, refl, sym, ap, ◌∙◌, Bool, List, [], ◌∷◌, ◌++◌, arith, append_assoc, append-nil,
  length, All,
}
use distributed_messaging_sy.Protocol.Encoder.{Bytes}
use distributed_messaging_sy.Protocol.Decoder.{M, ◌>>=◌, ◌>>◌, pure, new_decoder}
use distributed_messaging_sy.Protocol.Decoder.RoundTrip.{Reads, Reads-bind, Reads-last, Reads-pure}
use distributed_messaging_sy.Protocol.Header.{optional_tagged_fields}
use distributed_messaging_sy.Protocol.Header.RoundTrip.{
  optional_bytes, optional_put, Reads-optional_tagged_fields,
}
use distributed_messaging_sy.Protocol.Arrays.{
  repeat, make_slice, put_list, decode_array_len, encode_array_len, encode_string, encode_tags,
  decoded, finish_message,
}
use distributed_messaging_sy.Protocol.Arrays.RoundTrip.{
  Appends, put_list-append, Reads-repeat, Reads-make_slice, Reads-array_len,
  encode_array_len-append, encode_string-append,
}

pub encode_tags-bytes : (f : Bool) (e : Bytes) → encode_tags f e ≡ e ++ optional_bytes f
unfolding encode_tags
encode_tags-bytes f e = optional_put f e

pub Reads-tags_end :
    {A : Type 0} (f : Bool) (v : A)
    → Reads (optional_tagged_fields f >> pure v) v (optional_bytes f)
Reads-tags_end f v = Reads-last _ (Reads-optional_tagged_fields f) (Reads-pure v)

-- A topic, and a message, end in a counted list with tags behind it.
module _ {A : Type 0} (f : Bool) (put : Bytes → A → Bytes) where
  unfoldable pub counted : Bytes → List A → Bytes
  counted e vs = encode_tags f (put_list put (encode_array_len f e (length vs)) vs)

  unfoldable pub counted_bytes : List A → Bytes
  counted_bytes vs = encode_array_len f [] (length vs) ++ (put_list put [] vs ++ optional_bytes f)

  pub counted-bytes : Appends put → (e : Bytes) (vs : List A) → counted e vs ≡ e ++ counted_bytes vs
  unfolding counted counted_bytes
  counted-bytes p e vs =
      encode_tags-bytes f _
      ∙ ap (λ b. b ++ optional_bytes f)
          (put_list-append put p (encode_array_len f e (length vs)) vs)
      ∙ ap (λ b. (b ++ put_list put [] vs) ++ optional_bytes f)
          (encode_array_len-append f e (length vs))
      ∙ simp append_assoc

  pub Reads-counted :
      {B : Type 0} (m : M A) (build : List A → B) (vs : List A)
      → Appends put
      → length vs < 2 ^ 31
      → All (λ v. Reads m v (put [] v)) vs
      → Reads
          (do
            n ← decode_array_len f
            make_slice n
            out ← repeat n m
            optional_tagged_fields f
            pure (build out))
          (build vs)
          (counted_bytes vs)
  unfolding counted_bytes
  Reads-counted m build vs p h r = Reads-bind _ (Reads-array_len f (length vs) h) (
      Reads-bind _ (Reads-make_slice (length vs) h)
        (Reads-bind _ (Reads-repeat m put vs p r) (Reads-tags_end f (build vs))))

  unfoldable pub named : Bytes → Bytes → List A → Bytes
  named e name vs = counted (encode_string f e name) vs

  pub named-bytes :
      Appends put
      → (e name : Bytes) (vs : List A)
      → named e name vs ≡ e ++ (encode_string f [] name ++ counted_bytes vs)
  unfolding named
  named-bytes p e name vs =
      counted-bytes p (encode_string f e name) vs
      ∙ ap (λ b. b ++ counted_bytes vs) (encode_string-append f e name)
      ∙ append_assoc e (encode_string f [] name) (counted_bytes vs)

pub All-map :
    {A : Type 0} (P Q : A → Type 0) → ((a : A) → P a → Q a) → (xs : List A) → All P xs → All Q xs
All-map P Q g [] h = tt
All-map P Q g (x ∷ xs) h = (g x h.0, All-map P Q g xs h.1)

-- What a reader of a whole message returns.
pub finish-Reads :
    {A : Type 0} (m : M A) (v : A) (bs : Bytes)
    → Reads m v bs
    → length bs < 2 ^ 63
    → finish_message (m (new_decoder bs)) ≡ decoded v
unfolding finish_message
finish-Reads m v bs r h =
    rw
      (r.run (new_decoder bs) [] (record {
        no_error = refl;
        unread = sym (append-nil bs);
        position = rw append-nil (omega arith);
        small = h;
      }))
      refl
