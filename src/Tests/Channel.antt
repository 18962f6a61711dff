-- ===== src/Tests/Channel.antt =====
-- The USB channel.
use roosterwake.Prelude.{
  ◌≤◌, true, false, List, none, some, [], ◌∷◌, ◌≡◌, refl, arith, replicate, length,
}
use roosterwake.Prelude.Bytes.{Bytes}
use roosterwake.Config.Record.{encode}
use roosterwake.Config.Record.Image.{Fits, image}
use roosterwake.Usbcfg.Cmdline.{
  parsed, push_byte, push_arg, is_escaped, quoted, bare, ends_argument, check_end, argument,
  skip_spaces, arguments, cmdline_parse,
}
use roosterwake.Usbcfg.Cmdline.Quoted.{quote_bytes, quote_line, cmdline_parse-quote_line}
use roosterwake.Usbcfg.Command.{scan, bad_arg, ascii_upper, iequal, lookup_among, cmd_lookup}
use roosterwake.Usbcfg.Stage.{
  Stage, stage_init, field_fits, is_empty, text_of, stage_set_wifi, is_set, config_json,
}
use roosterwake.Usbcfg.Stage.Committed.{
  begun, then_ran, set_wifi, set_email, run_staging, encode-Staged,
}
use roosterwake.Usbcfg.Stage.Secret.{config_json_keeps_secrets}
use roosterwake.Usbcfg.Utf8.{utf8_valid, utf8_chars}
use roosterwake.Tests.Samples.{codes, home}

abbrev words : List Bytes
words = codes "SET_WIFI" ∷ codes "my \"net" ∷ []

words_valid : utf8_valid (quote_line words) ≡ true
unfolding utf8_valid utf8_chars quote_line quote_bytes is_escaped
words_valid = refl

words_short : length (quote_line words) ≤ 511
unfolding quote_line quote_bytes is_escaped
words_short = omega arith

cmdline_parse-quote_line_example : cmdline_parse (quote_line words) ≡ parsed words
cmdline_parse-quote_line_example =
    cmdline_parse-quote_line words (omega arith) words_short words_valid

bare_words : cmdline_parse (codes "  SCAN \"a b\" ") ≡ parsed (codes "SCAN" ∷ codes "a b" ∷ [])
unfolding cmdline_parse arguments skip_spaces argument bare quoted check_end ends_argument
    is_escaped push_byte push_arg utf8_valid utf8_chars
bare_words = refl

any_case : cmd_lookup (some (codes "sCan")) ≡ scan
unfolding cmd_lookup lookup_among iequal ascii_upper
any_case = refl

-- A refused key leaves the new name of the network behind.
half_staged :
    stage_set_wifi (stage_init home) (some (codes "other")) (some (replicate 65 b'k'))
    ≡ (bad_arg, record { cfg = record home { ssid = codes "other" }; dirty = false })
unfolding stage_set_wifi stage_init field_fits is_empty text_of
half_staged = refl

home-Fits : Fits home
home-Fits = record {
  ssid = omega arith;
  psk = omega arith;
  relay_url = omega arith;
  device_id = omega arith;
  token = omega arith;
  owner_email = omega arith;
}

abbrev two_commands : Stage
two_commands =
    (run_staging (set_email none)
      (run_staging (set_wifi (some (codes "other")) none) (stage_init home)).1).1

encode-Staged_example :
    encode two_commands.cfg (replicate 475 0) ≡ some (image two_commands.cfg (replicate 475 0))
encode-Staged_example =
    encode-Staged (replicate 475 0)
      (then_ran (then_ran begun (set_wifi (some (codes "other")) none)) (set_email none)) home-Fits
      (omega arith)

config_json_keeps_secrets_example :
    config_json (record home { psk = codes "x"; token = codes "y"; owner_email = [] }) 512
    ≡ config_json home 512
unfolding is_set
config_json_keeps_secrets_example =
    config_json_keeps_secrets home (codes "x") (codes "y") [] 512 refl refl refl
