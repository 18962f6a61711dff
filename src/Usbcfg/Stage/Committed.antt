-- ===== src/Usbcfg/Stage/Committed.antt =====
-- What is staged over the USB channel can be stored, firmware/src/usbcfg/cmdline.c and firmware/src/config/config.c.
use roosterwake.Prelude.Options.{if_holds, maybe_holds}
use roosterwake.Prelude.{
  ℕ, suc, subst, ◌&&◌, ◌≤◌, true, not, Bool-cases, Option, none, some, [], ◌∷◌, ◌==◌, length, ◌≡◌,
  refl, inl, inr, arith,
}
use roosterwake.Prelude.Bytes.{Bytes}
use roosterwake.Config.Record.{Config, record_len, encode}
use roosterwake.Config.Record.Image.{Fits, image, encode-image}
use roosterwake.Net.Url.{url_parse, plaintext_permitted}
use roosterwake.Usbcfg.Command.{Uerr}
use roosterwake.Usbcfg.Stage.{
  Stage, stage_init, field_fits, is_empty, text_of, stage_set_wifi, stage_set_relay, is_address,
  stage_set_email, token_char, normalised, stage_set_token,
}
use roosterwake.Usbcfg.Utf8.{utf8_valid}

-- A command that stages a field, with its arguments.
pub data Staging : Type 0 where
  set_wifi : Option Bytes → Option Bytes → Staging
  set_relay set_email set_token : Option Bytes → Staging

unfoldable pub run_staging : Staging → Stage → Uerr × Stage
run_staging (set_wifi ssid psk) stage = stage_set_wifi stage ssid psk
run_staging (set_relay url) stage = stage_set_relay stage url
run_staging (set_email text) stage = stage_set_email stage text
run_staging (set_token text) stage = stage_set_token stage text

-- What commands make of a configuration, whether they are accepted or refused.
pub data Staged (base : Config) : Stage → Type 0 where
  begun : Staged base (stage_init base)
  then_ran :
      {stage : Stage} → Staged base stage → (c : Staging) → Staged base (run_staging c stage).1

field_fits_lem : (n : ℕ) (s : Bytes) → field_fits (suc n) s ≡ true → length s ≤ n
unfolding field_fits
field_fits_lem n s e = ground arith

-- The number of characters that a token keeps
unfoldable pub HasLength : ℕ → Option Bytes → Type 0
HasLength n none = Unit
HasLength n (some t) = length t ≡ n

normalised-HasLength : (s : Bytes) → HasLength (length s) (normalised s)
unfolding normalised HasLength
normalised-HasLength [] = refl
normalised-HasLength (c ∷ s) =
    maybe_holds (HasLength (suc (length s))) (token_char c) tt
      (λ d. by_rest d (normalised s) (normalised-HasLength s))
  where
    by_rest :
        (d : ℕ) (o : Option Bytes)
        → HasLength (length s) o
        → HasLength
            (suc (length s))
            (elim o as (λ x. Option Bytes) [ none ↦ none | some rest ↦ some (d ∷ rest) ])
    by_rest d none h = tt
    by_rest d (some rest) h = omega (arith, h)

abbrev StageFits : Uerr × Stage → Type 0
StageFits r = Fits r.1.cfg

stage_set_wifi-Fits :
    (stage : Stage) (ssid psk : Option Bytes)
    → Fits stage.cfg
    → Fits (stage_set_wifi stage ssid psk).1.cfg
unfolding stage_set_wifi
stage_set_wifi-Fits stage ssid psk f = elim (Bool-cases (field_fits 33 (text_of ssid))) [
  | inr long ↦ rw long (if_holds StageFits (is_empty ssid) f f)
  | inl short ↦
      let named : length (text_of ssid) ≤ 32 = field_fits_lem 32 (text_of ssid) short in
      elim (Bool-cases (field_fits 65 (text_of psk))) [
        | inr wide ↦
            rw (short, wide)
              (if_holds StageFits (is_empty ssid) f (
                if_holds StageFits (is_empty psk)
                  (record {
                    ssid = named;
                    psk = omega arith;
                    relay_url = f.relay_url;
                    device_id = f.device_id;
                    token = f.token;
                    owner_email = f.owner_email;
                  })
                  (record {
                    ssid = named;
                    psk = f.psk;
                    relay_url = f.relay_url;
                    device_id = f.device_id;
                    token = f.token;
                    owner_email = f.owner_email;
                  })))
        | inl narrow ↦
            let keyed : length (text_of psk) ≤ 64 = field_fits_lem 64 (text_of psk) narrow in
            rw (short, narrow)
              (if_holds StageFits (is_empty ssid) f (
                if_holds StageFits (is_empty psk)
                  (record {
                    ssid = named;
                    psk = omega arith;
                    relay_url = f.relay_url;
                    device_id = f.device_id;
                    token = f.token;
                    owner_email = f.owner_email;
                  })
                  (record {
                    ssid = named;
                    psk = keyed;
                    relay_url = f.relay_url;
                    device_id = f.device_id;
                    token = f.token;
                    owner_email = f.owner_email;
                  })))
      ]
]

stage_set_relay-Fits :
    (stage : Stage) (url : Option Bytes) → Fits stage.cfg → Fits (stage_set_relay stage url).1.cfg
unfolding stage_set_relay
stage_set_relay-Fits stage url f = elim (Bool-cases (field_fits 129 (text_of url))) [
  | inr long ↦ maybe_holds StageFits (url_parse url) f (λ u. rw long (
      if_holds StageFits (is_empty url) f
        (if_holds StageFits (not u.tls && not (plaintext_permitted (some u.host))) f f)))
  | inl short ↦
      let kept : length (text_of url) ≤ 128 = field_fits_lem 128 (text_of url) short in
      maybe_holds StageFits (url_parse url) f (λ u. rw short (
        if_holds StageFits (is_empty url) f (
          if_holds StageFits (not u.tls && not (plaintext_permitted (some u.host))) f (record {
            ssid = f.ssid;
            psk = f.psk;
            relay_url = kept;
            device_id = f.device_id;
            token = f.token;
            owner_email = f.owner_email;
          }))))
]

stage_set_email-Fits :
    (stage : Stage) (email : Option Bytes)
    → Fits stage.cfg
    → Fits (stage_set_email stage email).1.cfg
unfolding stage_set_email
stage_set_email-Fits stage none f = f
stage_set_email-Fits stage (some email) f = elim (Bool-cases (field_fits 129 email)) [
  | inr long ↦ rw long (
      if_holds StageFits (not (utf8_valid email)) f
        (if_holds StageFits (not (is_address email)) f f))
  | inl short ↦
      let kept : length email ≤ 128 = field_fits_lem 128 email short in
      rw short (
        if_holds StageFits (not (utf8_valid email)) f (
          if_holds StageFits (not (is_address email)) f (record {
            ssid = f.ssid;
            psk = f.psk;
            relay_url = f.relay_url;
            device_id = f.device_id;
            token = f.token;
            owner_email = kept;
          })))
]

stage_set_token-Fits :
    (stage : Stage) (token : Option Bytes)
    → Fits stage.cfg
    → Fits (stage_set_token stage token).1.cfg
unfolding stage_set_token
stage_set_token-Fits stage none f = f
stage_set_token-Fits stage (some token) f = by_text (normalised token) refl
  where
    by_text :
        (t : Option Bytes) → normalised token ≡ t → Fits (stage_set_token stage (some token)).1.cfg
    by_text none e = rw (e, stage_set_token) f
    by_text (some t) e = elim (Bool-cases (length token == 64)) [
      | inr other ↦ rw (e, stage_set_token, other) f
      | inl whole ↦
          let same : length t ≡ length token =
            unfold HasLength in subst (HasLength (length token)) e (normalised-HasLength token) in
          let kept : length t ≤ 64 = ground (arith, same) in
          rw (e, stage_set_token, whole)
            (record {
              ssid = f.ssid;
              psk = f.psk;
              relay_url = f.relay_url;
              device_id = f.device_id;
              token = kept;
              owner_email = f.owner_email;
            })
    ]

run_staging-Fits : (c : Staging) (stage : Stage) → Fits stage.cfg → Fits (run_staging c stage).1.cfg
unfolding run_staging
run_staging-Fits (set_wifi ssid psk) stage f = stage_set_wifi-Fits stage ssid psk f
run_staging-Fits (set_relay url) stage f = stage_set_relay-Fits stage url f
run_staging-Fits (set_email text) stage f = stage_set_email-Fits stage text f
run_staging-Fits (set_token text) stage f = stage_set_token-Fits stage text f

Staged-Fits : {base : Config} {stage : Stage} → Staged base stage → Fits base → Fits stage.cfg
unfolding stage_init
Staged-Fits begun f = f
Staged-Fits (then_ran r c) f = run_staging-Fits c _ (Staged-Fits r f)

-- From a configuration whose strings fit their fields, whatever sequence of commands stages, accepted or refused, is a
-- configuration that `encode` writes in full.
pub encode-Staged :
    {base : Config} {stage : Stage} (out : Bytes)
    → Staged base stage
    → Fits base
    → record_len ≤ length out
    → encode stage.cfg out ≡ some (image stage.cfg out)
encode-Staged {stage} out r f room = encode-image stage.cfg out room (Staged-Fits r f)
