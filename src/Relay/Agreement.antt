-- ===== src/Relay/Agreement.antt =====
-- What the self-hosted relay sends is what the daemon's two connections understand.
use pty_relay.Base.{
  String, Bool, true, false, not, ◌&&◌, ◌||◌, Option, none, some, ◌≡◌, refl, str_eq, if◌then◌else◌,
  ap, ◌∙◌, if-holds,
}
use pty_relay.Js.{Json, null, obj, str, prop, truthy, string_at, Fields, field, end}
use pty_relay.Pairing.{
  Meta, paired, waiting, meta_field, psk_field, token_field, flag, has_text, text_or_null,
}
use pty_relay.Relay.Primary
use pty_relay.Relay.Connection.{Env, choose, choose_by, choose_psk, choose_nk, paired_meta}

-- A token that is empty counts as none.
abbrev pub token_json : Option String → Option Json
token_json none = none
token_json (some t) = if str_eq t "" then none else some (str t)

-- A text, or null when there is none.
abbrev pub text_json : Option String → Json
text_json none = null
text_json (some s) = str s

-- The metadata, unless each of the three texts is missing or empty.
abbrev pub is_blank : Option String → Bool
is_blank none = true
is_blank (some s) = str_eq s ""

abbrev pub meta_json : Option Meta → Option Json
meta_json none = none
meta_json (some m) =
    if is_blank m.remote_addr && is_blank m.user_agent && is_blank m.origin
    then none
    else some (
        obj (
          field "remote_addr" (text_json m.remote_addr) (
            field "user_agent" (text_json m.user_agent) (field "origin" (text_json m.origin) end))))

has_text-blank : (o : Option String) → has_text o ≡ not (is_blank o)
unfolding has_text
has_text-blank none = refl
has_text-blank (some s) = refl

text_or_null-text : (o : Option String) → text_or_null o ≡ text_json o
text_or_null-text none = refl
text_or_null-text (some s) = refl

meta_field-meta : (o : Option Meta) → prop "meta" (meta_field o) ≡ meta_json o
unfolding prop meta_field
meta_field-meta none = refl
meta_field-meta (some m) = rw (has_text-blank m.remote_addr) (
    rw (has_text-blank m.user_agent) (
      rw (has_text-blank m.origin) (
        rw (text_or_null-text m.remote_addr) (
          rw (text_or_null-text m.user_agent) (
            rw (text_or_null-text m.origin)
              (by (is_blank m.remote_addr) (is_blank m.user_agent) (is_blank m.origin) _))))))
  where
    by :
        (a b c : Bool) (j : Json)
        → prop "meta" (if not a || (not b || not c) then field "meta" j end else end)
          ≡ (if a && b && c then none else some j)
    by true true true j = refl
    by true true false j = refl
    by true false c j = refl
    by false b c j = refl

-- The properties behind the token.
no_token : (o : Option Meta) → prop "client_token" (meta_field o) ≡ none
unfolding prop meta_field
no_token none = refl
no_token (some m) =
    if-holds (λ (fs : Fields). prop "client_token" fs ≡ none) _ (field "meta" _ end) end refl refl

psk_skipped :
    (key : String) (psk : Bool) (fs : Fields)
    → str_eq "psk_required" key ≡ false
    → prop key (psk_field psk fs) ≡ prop key fs
unfolding prop psk_field
psk_skipped key true fs h = rw (h) refl
psk_skipped key false fs h = refl

token_at :
    (token : Option String) (fs : Fields)
    → prop "client_token" fs ≡ none
    → prop "client_token" (token_field token fs) ≡ token_json token
unfolding prop token_field
token_at none fs h = h
token_at (some t) fs h = by (str_eq t "")
  where
    by :
        (b : Bool)
        → prop "client_token" (if b then fs else field "client_token" (str t) fs)
          ≡ (if b then none else some (str t))
    by true = h
    by false = refl

meta_at :
    (token : Option String) (fs : Fields) → prop "meta" (token_field token fs) ≡ prop "meta" fs
unfolding prop token_field
meta_at none fs = refl
meta_at (some t) fs =
    if-holds (λ (gs : Fields). prop "meta" gs ≡ prop "meta" fs) (str_eq t "") fs _ refl refl

-- The daemon's onClientWaiting gets the id of a client that waits at the relay, its token unless
-- that is empty, and its metadata, with null for each text that is missing, unless all three are
-- missing or empty; when its id is not empty.
pub on_text-waiting :
    (id : String) (token : Option String) (meta : Option Meta) (c : Primary.Conn)
    → str_eq id "" ≡ false
    → Primary.on_text (some (obj (waiting id token meta))) c
      ≡ Primary.emit (Primary.on_client_waiting (str id) (token_json token) (meta_json meta)) c
unfolding Primary.on_text Primary.on_type string_at prop truthy
on_text-waiting id token meta c h =
    let rest : Fields = psk_field (flag meta) (meta_field meta) in
    ap
      (λ b.
        if (if b then false else true)
        then Primary.emit
            (Primary.on_client_waiting (str id) (prop "client_token" (token_field token rest))
              (prop "meta" (token_field token rest)))
            c
        else c)
      h
    ∙ ap
        (λ t.
          Primary.emit (Primary.on_client_waiting (str id) t (prop "meta" (token_field token rest)))
            c)
        (token_at token rest
          (psk_skipped "client_token" (flag meta) (meta_field meta) refl ∙ no_token meta))
    ∙ ap (λ m. Primary.emit (Primary.on_client_waiting (str id) (token_json token) m) c)
        (meta_at token rest
          ∙ psk_skipped "meta" (flag meta) (meta_field meta) refl
          ∙ meta_field-meta meta)

-- A daemon that gets the paired frame of the relay chooses NKpsk2 if the client asked for the
-- pre-shared key, and NK if not, and refuses when that is not what its own key asks for.
choose-paired :
    (env : Env) (psk : Bool)
    → choose env (paired_meta env (paired psk))
      ≡ (if psk then choose_psk env.pre_shared_key else choose_nk env.pre_shared_key)
unfolding choose choose_by string_at prop
choose-paired env true = refl
choose-paired env false = refl
