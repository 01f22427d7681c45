-- ===== src/Intercept/Changed.antt =====
-- What a stub is: the response with another result.
use mcp_content_guard.Base.{◌≡◌, Bool, true, false, Option, none, some, if◌then◌else◌}
use mcp_content_guard.Base.Bytes.{Bytes, codes}
use mcp_content_guard.Base.Dictionary.{Dictionary, lookup, put}
use mcp_content_guard.Json.{Result, ok, err, Message}
use mcp_content_guard.Base.Int64.{lt64, len64}
use mcp_content_guard.Schema.{or_empty}
use mcp_content_guard.Intercept.{
  ◌>>=◌, State, Environment, Setup, is_error, stub_message, cache_content, maybe_cache,
}
use mcp_content_guard.Cache

module _ (setup : Setup) where
  -- A stub is the message with another result.
  abbrev pub IsChanged : Message → Option Bytes → Type 0
  IsChanged msg stub =
      (line : Bytes)
      → stub ≡ some line
      → (result : Bytes) × (setup.codec.encode_message (record msg { result = result }) ≡ some line)

  none-IsChanged : (msg : Message) → IsChanged msg none
  none-IsChanged msg line h = cc

  if-IsChanged :
      {A : Type 0} (msg : Message) (f : A → Option Bytes) (b : Bool) (x y : A)
      → IsChanged msg (f x)
      → IsChanged msg (f y)
      → IsChanged msg (f (if b then x else y))
  if-IsChanged msg f true x y h k = h
  if-IsChanged msg f false x y h k = k

  result-IsChanged :
      (msg : Message) (result : Option Bytes)
      → IsChanged msg (result >>= (λ r. setup.codec.encode_message (record msg { result = r })))
  result-IsChanged msg none line h = cc
  result-IsChanged msg (some r) line h = (r, h)

  content-IsChanged :
      (msg : Message) (content : Option Bytes) (result_of : Bytes → Option Bytes)
      → IsChanged msg (
          content
          >>= (λ c. result_of c >>= (λ r. setup.codec.encode_message (record msg { result = r }))))
  content-IsChanged msg none result_of line h = cc
  content-IsChanged msg (some c) result_of line h = result-IsChanged msg (result_of c) line h

  stub_message-IsChanged :
      (msg : Message) (result : Dictionary Bytes) (id content : Bytes)
      → IsChanged msg (stub_message setup msg result id content)
  unfolding stub_message
  stub_message-IsChanged msg result id content =
      content-IsChanged msg _ (λ c. setup.codec.encode_map (put (codes "content") c result))

  made-IsChanged :
      (msg : Message) (s : State) (counted : Bytes → State) (stub : Option Bytes)
      → IsChanged msg stub
      → IsChanged msg
          (elim stub as (λ x. State × Option Bytes) [
            | none ↦ (s, none)
            | some b ↦ (counted b, some b)
          ]).1
  made-IsChanged msg s counted none h = none-IsChanged msg
  made-IsChanged msg s counted (some b) h = h

  stored-IsChanged :
      (msg : Message) (s : State) (counted : Bytes → Bytes → State) (stub : Bytes → Option Bytes)
      (stored : Option Bytes)
      → ((id : Bytes) → IsChanged msg (stub id))
      → IsChanged msg
          (elim stored as (λ x. State × Option Bytes) [
            | none ↦ (s, none)
            | some id ↦ elim (stub id) [ none ↦ (s, none) | some b ↦ (counted id b, some b) ]
          ]).1
  stored-IsChanged msg s counted stub none h = none-IsChanged msg
  stored-IsChanged msg s counted stub (some id) h =
      made-IsChanged msg s (counted id) (stub id) (h id)

  cache_content-IsChanged :
      (env : Environment) (msg : Message) (result : Dictionary Bytes) (content : Bytes) (s : State)
      → IsChanged msg (cache_content setup env msg result content s).1
  unfolding cache_content
  cache_content-IsChanged env msg result content s =
      stored-IsChanged msg _ _ (λ id. stub_message setup msg result id content)
        (Cache.store env.random content s.cache).1
        (λ id. stub_message-IsChanged msg result id content)

  found-IsChanged :
      (env : Environment) (msg : Message) (s : State) (result : Dictionary Bytes)
      (found : Option Bytes)
      → IsChanged msg
          (elim found as (λ x. State × Option Bytes) [
            | none ↦ (s, none)
            | some content ↦
                if lt64 (len64 content) setup.threshold
                then (s, none)
                else cache_content setup env msg result content s
          ]).1
  found-IsChanged env msg s result none = none-IsChanged msg
  found-IsChanged env msg s result (some content) =
      if-IsChanged msg (λ (r : State × Option Bytes). r.1) (lt64 (len64 content) setup.threshold)
        (s, none) _ (none-IsChanged msg) (cache_content-IsChanged env msg result content s)

  decoded-IsChanged :
      (env : Environment) (msg : Message) (s : State) (decoded : Result (Option (Dictionary Bytes)))
      → IsChanged msg
          (elim decoded as (λ x. State × Option Bytes) [
            | err e ↦ (s, none)
            | ok map ↦
                let result = or_empty map in
                if is_error setup result
                then (s, none)
                else (elim (lookup (codes "content") result) [
                  | none ↦ (s, none)
                  | some content ↦
                      if lt64 (len64 content) setup.threshold
                      then (s, none)
                      else cache_content setup env msg result content s
                ])
          ]).1
  decoded-IsChanged env msg s (err e) = none-IsChanged msg
  decoded-IsChanged env msg s (ok map) =
      if-IsChanged msg (λ (r : State × Option Bytes). r.1) (is_error setup (or_empty map)) (s, none)
        _ (none-IsChanged msg)
        (found-IsChanged env msg s (or_empty map) (lookup (codes "content") (or_empty map)))

  -- A stub is the response with another result.
  pub maybe_cache-IsChanged :
      (env : Environment) (msg : Message) (s : State)
      → IsChanged msg (maybe_cache setup env msg s).1
  unfolding maybe_cache
  maybe_cache-IsChanged env msg s = decoded-IsChanged env msg s (setup.codec.decode_map msg.result)
