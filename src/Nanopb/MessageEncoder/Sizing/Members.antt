-- ===== src/Nanopb/MessageEncoder/Sizing/Members.antt =====
-- AppChat_Again/Pods/nanopb/pb_encode.c: the fields of a message on a stream that only counts.
use mathlib.Core.Option
use app_chat_again.Prelude.{false, true, [], none, some, Option}
use app_chat_again.Nanopb.FieldEncoders.{load_number}
use app_chat_again.Nanopb.FieldDecoders.{load_pointer}
use app_chat_again.Nanopb.Release.{is_pointer}
use app_chat_again.Nanopb.FieldIter.{field_at, move, current, Iter}
use app_chat_again.Nanopb.MessageEncoder.Sizing.Values.{
  Agrees-error, Agrees-no_answer, Agrees-tag_for_field,
}
use app_chat_again.Nanopb.OStream.{OStream}
use app_chat_again.Nanopb.Memory.{Memory}
use app_chat_again.Nanopb.MessageEncoder.{
  pb_encode, load_number, is_present, pb_htype, load_pointer, is_pointer, pb_ltype, suc, Iter,
  encode_extension_field, pb_atype, default_extension_encoder, encode_one, encode_basic_field,
  handle_extension, encode_callback_field, encode_member, encode_extensions, encode_field, Field,
  OStream, Memory, callback_result,
}
use app_chat_again.Nanopb.Host.{
  extension_dest, extension_fields, extension_type, extension_next, type_encode, callback_arg,
  callback_function, Host,
}
use app_chat_again.Prelude.{
  ◌+◌, zero, not, ◌||◌, ◌==◌, if◌then◌else◌, ap, List, some, ℕ, M, Bool, Option,
}
use app_chat_again.Nanopb.Types.Ltype
use app_chat_again.Nanopb.Types.Htype
use app_chat_again.Nanopb.Types.Atype
use app_chat_again.Nanopb.Types.{
  pb_htype, pb_ltype, pb_atype, Field, missing_required_field, invalid_field_type,
}
use app_chat_again.Nanopb.MessageEncoder.Sizing.Messages.{
  UserAgrees, Agrees-encoder_of, Agrees-encode_array, Agrees-for_each_field,
}
use app_chat_again.Nanopb.MessageEncoder.Wire.{
  UserBytes, one_bytes, basic_bytes, field_bytes, extension_bytes, member_bytes, message_bytes,
  field_tag,
}
use app_chat_again.Nanopb.MessageEncoder.Sizing.{
  Agrees-either, Option, Agrees, AgreesAt, counting, Agrees-then, Agrees-branch, Agrees-when,
  Agrees-test, Agrees-done,
}
use app_chat_again.Nanopb.Run.{Run, ended, when, no_answer}

Agrees-present :
    (present : Option Bool) (f : Run OStream (Unit {0})) (x : List ℕ)
    → Agrees f x
    → Agrees
        (elim present [ none ↦ no_answer | some b ↦ when b f ])
        (elim present [ none ↦ [] | some b ↦ if b then x else [] ])
Agrees-present none f x h = Agrees-no_answer []
Agrees-present (some b) f x h = Agrees-when b f x h

-- The answer of the user's function is turned into the library's message.
Agrees-callback_result :
    (g : M OStream (Unit {0})) (bytes : List ℕ) (n : ℕ) (r : Option (Unit {0}) × OStream)
    → AgreesAt (ended g) bytes n (some r)
    → AgreesAt (λ s. some (callback_result (g s))) bytes n (some (callback_result r))
unfolding callback_result
Agrees-callback_result g bytes n (none, z) a = tt
Agrees-callback_result g bytes n (some tt, z) (e, h) = (
  e,
  λ out max written room small. ap (Option.map callback_result) (h out max written room small),
)

-- A test that is turned round in the description.
Agrees-unless :
    (b : Bool) (f : Run OStream (Unit {0})) (x : List ℕ)
    → Agrees f x
    → Agrees (when (not b) f) (if b then [] else x)
Agrees-unless true f x h = Agrees-done
Agrees-unless false f x h = h

module _ (host : Host) (memory : Memory) (user : UserBytes) (agrees : UserAgrees host memory user)
    (fuel : ℕ) where
  module _ (encode : List Field → ℕ → Run OStream (Unit {0})) (message : List Field → ℕ → List ℕ)
      (h : (fields : List Field) (src : ℕ) → Agrees (encode fields src) (message fields src)) where
    Agrees-encode_one :
        (f : Field) (p_data : ℕ)
        → Agrees
            (encode_one host memory fuel encode f p_data)
            (one_bytes host memory user fuel message f p_data)
    unfolding encode_one
    Agrees-encode_one f p_data =
        Agrees-then _ _ (field_tag f) _ (Agrees-tag_for_field f)
          (Agrees-encoder_of memory host user encode message h (pb_ltype f.type) f p_data)

    Agrees-encode_basic_field :
        (f : Field) (p_field : ℕ)
        → Agrees
            (encode_basic_field host memory fuel encode f p_field)
            (basic_bytes host memory user fuel message f p_field)
    unfolding encode_basic_field basic_bytes
    Agrees-encode_basic_field f p_field =
        let p_data = if is_pointer f then load_pointer p_field memory else p_field in
        let p_size = move p_field f.size_offset in
        let one = one_bytes host memory user fuel message f p_data in
        Agrees-branch (pb_htype f.type == Htype.required) _ _ one _
          (λ _.
            Agrees-either (p_data == 0) _ _ one (λ _. Agrees-error missing_required_field one)
              (λ _. Agrees-encode_one f p_data))
          λ _.
            Agrees-branch (pb_htype f.type == Htype.optional) _ _ _ _
              (λ _.
                Agrees-present (is_present host memory fuel f p_field) _ one
                  (Agrees-encode_one f p_data))
              λ _.
                Agrees-branch (pb_htype f.type == Htype.repeated) _ _ _ _
                  (λ _. Agrees-encode_array memory host user encode message h f p_data _)
                  (λ _.
                    Agrees-when (load_number 4 p_size memory == f.tag) _ one
                      (Agrees-encode_one f p_data))

    Agrees-encode_callback_field :
        (f : Field) (p_data : ℕ)
        → (let function = callback_function p_data memory in
            Agrees
              (encode_callback_field host memory f p_data)
              (if function == 0 then [] else user.callback function f (callback_arg p_data)))
    unfolding encode_callback_field
    Agrees-encode_callback_field f p_data =
        let function = callback_function p_data memory in
        let g = host.encode_callback function f (callback_arg p_data) memory in
        Agrees-unless (function == 0) _ (user.callback function f (callback_arg p_data)) (
          unfold Agrees in
          λ n.
            Agrees-callback_result g _ n (g (counting n))
              (agrees.0 function f (callback_arg p_data) n))

    Agrees-encode_field :
        (f : Field) (p_data : ℕ)
        → Agrees
            (encode_field host memory fuel encode f p_data)
            (field_bytes host memory user fuel message f p_data)
    unfolding encode_field field_bytes
    Agrees-encode_field f p_data =
        Agrees-branch (pb_atype f.type == Atype.static || pb_atype f.type == Atype.pointer) _ _ _ _
          (λ _. Agrees-encode_basic_field f p_data)
          λ _.
            Agrees-either (pb_atype f.type == Atype.callback) _ _ _
              (λ _. Agrees-encode_callback_field f p_data) (λ _. Agrees-error invalid_field_type _)

    -- The field of an extension, or what its own encoder writes.
    abbrev handled : ℕ → List ℕ
    handled extension =
        let handler = type_encode (extension_type extension memory) memory in
        let f = field_at (extension_fields host extension memory) 0 in
        if handler == 0
        then field_bytes host memory user fuel message f (
            if is_pointer f
            then extension_dest extension
            else load_pointer (extension_dest extension) memory)
        else user.extension handler extension

    Agrees-handle_extension :
        (extension : ℕ)
        → Agrees (handle_extension host memory fuel encode extension) (handled extension)
    unfolding handle_extension default_extension_encoder
    Agrees-handle_extension extension =
        let handler = type_encode (extension_type extension memory) memory in
        Agrees-branch (handler == 0) _ _ _ (user.extension handler extension)
          (λ _. Agrees-encode_field _ _) (λ _. agrees.1 handler extension)

    Agrees-encode_extensions :
        (rounds extension : ℕ)
        → Agrees
            (encode_extensions host memory fuel encode rounds extension)
            (extension_bytes host memory user fuel message rounds extension)
    unfolding encode_extensions extension_bytes
    Agrees-encode_extensions zero extension = Agrees-no_answer []
    Agrees-encode_extensions (suc rounds) extension =
        Agrees-test (extension == 0) _ _ [] _ Agrees-done (
          Agrees-then (handle_extension host memory fuel encode extension) _ (handled extension) _
            (Agrees-handle_extension extension)
            (Agrees-encode_extensions rounds (extension_next extension memory)))

    Agrees-encode_member :
        (iter : Iter)
        → Agrees
            (encode_member host memory fuel encode iter)
            (member_bytes host memory user fuel message iter)
    unfolding encode_member encode_extension_field member_bytes
    Agrees-encode_member iter =
        Agrees-branch (pb_ltype (current iter).type == Ltype.extension) _ _ _ _
          (λ _. Agrees-encode_extensions (fuel + 1) (load_pointer iter.p_data memory))
          (λ _. Agrees-encode_field (current iter) iter.p_data)

module _ (host : Host) (memory : Memory) (user : UserBytes)
    (agrees : UserAgrees host memory user) where
  pub Agrees-pb_encode :
      (fuel : ℕ) (fields : List Field) (src_struct : ℕ)
      → Agrees
          (pb_encode host memory fuel fields src_struct)
          (message_bytes host memory user fuel fields src_struct)
  unfolding pb_encode message_bytes
  Agrees-pb_encode zero fields src_struct = Agrees-no_answer []
  Agrees-pb_encode (suc fuel) fields src_struct =
      Agrees-for_each_field (encode_member host memory fuel (pb_encode host memory fuel))
        (member_bytes host memory user fuel (message_bytes host memory user fuel))
        (Agrees-encode_member host memory user agrees fuel (pb_encode host memory fuel)
          (message_bytes host memory user fuel) (Agrees-pb_encode fuel))
        fields src_struct
