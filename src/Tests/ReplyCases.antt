-- ===== src/Tests/ReplyCases.antt =====
-- Replies with the id of the request, with a codec whose lines are a tag, an id and a text.
use mcp_content_guard.Base.{
  ℕ, ◌≡◌, refl, subst, Option, none, some, [], ◌∷◌, ◌==◌, Bool-cases, inl, inr, if◌then◌else◌,
}
use mcp_content_guard.Base.Bytes.{Bytes, codes, bytes_eq}
use mcp_content_guard.Json.{Value, Message, Codec, number, string, object, end, member}
use mcp_content_guard.Rpc.{is_request, is_response, text_result, error_result}
use mcp_content_guard.Intercept.{Setup}
use mcp_content_guard.Proxy.{Proxy, seek_params, handle_client_message, handle_upstream_message}
use mcp_content_guard.Proxy.Retrieve.{IsSeekCall}
use mcp_content_guard.Proxy.Replies.{ReadsMessages, Replied, handle_upstream_message-Replied}
use mcp_content_guard.Proxy.Answers.{ReadsReplies, ReadsBack, handle_client_message-Replied}
use mcp_content_guard.Tests.Fixtures.{codec, seek_call}
use mcp_content_guard.Tests.ProxyCases.{tool, setup, env, state}

-- A zero is the tag of a response.
abbrev method_of : ℕ → Bytes
method_of c = if c == 0 then [] else codes "tools/call"

abbrev tag_of : Bytes → ℕ
tag_of method = if bytes_eq method [] then 0 else 1

abbrev tagged : ℕ → ℕ → Bytes → Message
tagged c n s = record {
  jsonrpc = codes "2.0";
  id = number n;
  method = method_of c;
  params = codes "q";
  result = s;
  error = [];
}

abbrev decode : Bytes → Option Message
decode (c ∷ n ∷ s) = some (tagged c n s)
decode _ = none

abbrev encode : Value → Bytes → Bytes → Option Bytes
encode (number n) method s = some (tag_of method ∷ n ∷ s)
encode _ method s = none

abbrev tagged_codec : Codec
tagged_codec = record codec {
  decode_message = decode;
  encode_message = λ m. encode m.id m.method m.result;
  encode_value = λ v. elim v [
    | object fields ↦ elim fields [
      | end ↦ none
      | member _ _ fields' ↦ elim fields' [ end ↦ none | member _ id _ ↦ encode id [] [] ]
    ]
    | number n ↦ some (n ∷ [])
    | _ ↦ some (codes "value")
  ];
}

abbrev tagged_setup : Setup
tagged_setup = record setup { codec = tagged_codec }

method-tag : (c : ℕ) → method_of (tag_of (method_of c)) ≡ method_of c
unfolding bytes_eq
method-tag c = elim (Bool-cases (c == 0)) [
  | inl p ↦ rw (p, bytes_eq) refl
  | inr p ↦ rw (p, bytes_eq) refl
]

some_injective : {A : Type 0} {a b : A} → some a ≡ some b → a ≡ b
some_injective e = cc

-- What is read back for a line.
abbrev IsBack : Message → Bytes → Type 0
IsBack m line = (m' : Message) × (decode line ≡ some m') × (m'.id ≡ m.id) × (m'.method ≡ m.method)

tagged-IsBack :
    (c n : ℕ) (s result line : Bytes)
    → some (tag_of (method_of c) ∷ n ∷ result) ≡ some line
    → IsBack (tagged c n s) line
tagged-IsBack c n s result line e =
    subst (IsBack (tagged c n s)) (some_injective e)
      (tagged (tag_of (method_of c)) n result, refl, refl, method-tag c)

reads_messages : ReadsMessages tagged_codec
reads_messages [] line result m d e = cc
reads_messages (c ∷ []) line result m d e = cc
reads_messages (c ∷ n ∷ s) line result m d e =
    subst (λ m'. encode m'.id m'.method result ≡ some line → IsBack m' line) (some_injective d)
      (tagged-IsBack c n s result line) e

-- A response with an id that is a number.
numbered-ReadsBack :
    (n : ℕ) (v : Value)
    → ReadsBack tagged_codec (number n) (
        object (
          member
            (codes "jsonrpc")
            (string (codes "2.0"))
            (member (codes "id") (number n) (member (codes "result") v end))))
unfolding bytes_eq
numbered-ReadsBack n v = record {
  line = 0 ∷ n ∷ [];
  encoded = refl;
  message = tagged 0 n [];
  decoded = refl;
  same_id = refl;
  no_method = refl;
}

reads_replies : ReadsReplies tagged_codec
unfolding text_result error_result
reads_replies [] m d text = cc
reads_replies (c ∷ []) m d text = cc
reads_replies (c ∷ n ∷ s) m d text =
    subst
      (λ m'.
        ReadsBack tagged_codec m'.id (text_result m'.id text)
        × ReadsBack tagged_codec m'.id (error_result m'.id text))
      (some_injective d) (numbered-ReadsBack n _, numbered-ReadsBack n _)

-- The request with the id 1 waits.
abbrev waiting : Proxy
waiting = record {
  shared = state;
  pending = (1 ∷ [], tagged 1 1 []) ∷ [];
  to_client = [];
  to_upstream = [];
}

handle_upstream_message-Replied_example :
    Replied tagged_setup tool waiting
      (handle_upstream_message tagged_setup tool env (0 ∷ 1 ∷ codes "R") waiting)
      (tagged 0 1 (codes "R"))
unfolding is_response
handle_upstream_message-Replied_example =
    handle_upstream_message-Replied tagged_setup tool reads_messages (0 ∷ 1 ∷ codes "R")
      (tagged 0 1 (codes "R")) refl refl env waiting

seek-IsSeekCall : IsSeekCall tagged_setup tool (1 ∷ 2 ∷ []) (tagged 1 2 []) seek_call
unfolding is_request seek_params
seek-IsSeekCall = record { decoded = refl; request = refl; method = refl; params_of = refl }

handle_client_message-Replied_example :
    Replied tagged_setup tool waiting
      (handle_client_message tagged_setup tool env (1 ∷ 2 ∷ []) waiting)
      (tagged 1 2 [])
    × ((handle_client_message tagged_setup tool env (1 ∷ 2 ∷ []) waiting).to_upstream ≡ [])
handle_client_message-Replied_example =
    handle_client_message-Replied tagged_setup tool reads_replies env (1 ∷ 2 ∷ []) (tagged 1 2 [])
      seek_call waiting seek-IsSeekCall
