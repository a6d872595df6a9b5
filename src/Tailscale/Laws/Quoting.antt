-- ===== src/Tailscale/Laws/Quoting.antt =====
-- roles/tailscale/filter_plugins/tailscale.py: what `tailscale set` is told for a text flag, read
-- by the parser of the role's flags.
use ansible_install.Prelude.{
  String, ◌<>◌, Bool, true, false, not, ◌&&◌, some, List, [], ◌∷◌, map, ◌==◌, ◌≡◌, refl, sym, ap,
  ◌∙◌, arith, and-eq-true,
}
use Prim.Native.Char.{code}
use text.Mathlib.TextLemmas.{append_assoc, cons-append, nil-append}
use ansible_install.Prelude.Text.{cons-nonempty, starts_with, lstrip_by, lstrip_char, has}
use ansible_install.Prelude.Dict.{put}
use ansible_install.Prelude.Pieces.{cut-append}
use ansible_install.Prelude.Shell.{
  between, word, move, split_from, split_words, is_safe, all_safe, quote,
}
use ansible_install.Prelude.Quoting.{step, split_from-safe, split_from-quote}
use ansible_install.Tailscale.Flags.{
  StringFlag, absent, Flags, set_flag, given, word_of, read_tokens, no_flags, parse_args,
}
use ansible_install.Tailscale.Settings.{Problem, text_problem}

-- A name that stands in "--name=value": safe characters, not "=", no "-" at its start.
unfoldable pub is_flag_name : String → Bool
unfolding all_safe has starts_with
is_flag_name n =
    all_safe n && not (has b'=' n) && not (starts_with n "-") && not (n == "_positional")

all_safe-append : (s t : String) → all_safe s ≡ true → all_safe t ≡ true → all_safe (s <> t) ≡ true
unfolding all_safe
all_safe-append String.[] t h k = rw (nil-append t) k
all_safe-append (String.◌∷◌ c s) t h k =
    let (safe, more) = and-eq-true (is_safe (code c)) (all_safe s) h in
    rw (cons-append c s t) (rw safe (all_safe-append s t more k))

stripped_name :
    (n w : String)
    → starts_with n "-" ≡ false
    → lstrip_char b'-' (String.◌∷◌ "-" (String.◌∷◌ "-" (n <> String.◌∷◌ "=" w)))
      ≡ n <> String.◌∷◌ "=" w
unfolding lstrip_by starts_with
stripped_name String.[] w h = rw (nil-append (String.◌∷◌ "=" w)) refl
stripped_name (String.◌∷◌ c n) w h = rw (cons-append c n (String.◌∷◌ "=" w)) (ground arith)

word_of-name :
    (n w : String)
    → starts_with n "-" ≡ false
    → has b'=' n ≡ false
    → word_of (String.◌∷◌ "-" (String.◌∷◌ "-" (n <> String.◌∷◌ "=" w))) ≡ given n w
unfolding word_of starts_with
word_of-name n w h k = rw (stripped_name n w h) (rw (cut-append b'=' "=" n w refl k) refl)

abbrev flag_text : String → String → String
flag_text n r = String.◌∷◌ "-" (String.◌∷◌ "-" (n <> String.◌∷◌ "=" r))

as_cons : (r : String) → "=" <> r ≡ String.◌∷◌ "=" r
as_cons r = cons-append "=" "" r ∙ ap (λ x. String.◌∷◌ "=" x) (nil-append r)

after_dashes : (s : String) → "--" <> s ≡ String.◌∷◌ "-" (String.◌∷◌ "-" s)
after_dashes s =
    cons-append "-" "-" s
    ∙ ap (λ x. String.◌∷◌ "-" x) (cons-append "-" "" s ∙ ap (λ x. String.◌∷◌ "-" x) (nil-append s))

joined_text : (n r : String) → (n <> "=") <> r ≡ n <> String.◌∷◌ "=" r
joined_text n r = append_assoc n "=" r ∙ ap (λ x. n <> x) (as_cons r)

after_start :
    (s : String)
    → split_from between (String.◌∷◌ "-" (String.◌∷◌ "-" s)) ≡ split_from (word "--" false) s
unfolding move
after_start s =
    step between (word "-" false) "-" (String.◌∷◌ "-" s) refl
    ∙ step (word "-" false) (word "--" false) "-" s refl

dashed : (n w : String) → ("--" <> (n <> "=")) <> w ≡ flag_text n w
dashed n w =
    append_assoc "--" (n <> "=") w
    ∙ after_dashes ((n <> "=") <> w)
    ∙ ap (λ x. String.◌∷◌ "-" (String.◌∷◌ "-" x)) (joined_text n w)

-- The shell reads the flag as one word, with the value as it was.
one_word :
    (n w : String)
    → all_safe n ≡ true
    → split_from between (flag_text n (quote w)) ≡ some (flag_text n w ∷ [])
unfolding all_safe is_safe
one_word n w h =
    after_start (n <> String.◌∷◌ "=" (quote w))
    ∙ ap (split_from (word "--" false)) (sym (joined_text n (quote w)))
    ∙ split_from-safe (n <> "=") "--" (quote w) false (all_safe-append n "=" h refl)
    ∙ split_from-quote ("--" <> (n <> "=")) w false
        (rw (dashed n w) (cons-nonempty "-" (String.◌∷◌ "-" (n <> String.◌∷◌ "=" w))))
    ∙ ap (λ t. some (t ∷ [])) (dashed n w)

last_given :
    (tok n w : String) (flags : Flags)
    → word_of tok ≡ given n w
    → read_tokens (tok ∷ []) flags ≡ some (set_flag flags n w)
unfolding read_tokens
last_given tok n w flags h = rw (h, read_tokens) refl

set_first :
    (n w : String)
    → (n == "_positional") ≡ false
    → set_flag no_flags n w ≡ record { positional = absent; named = (n, w) ∷ [] }
unfolding set_flag put
set_first n w h = rw h refl

parse_args-words :
    (s : String) (tokens : List String)
    → (s == "") ≡ false
    → split_from between s ≡ some tokens
    → parse_args (some s) ≡ read_tokens tokens no_flags
unfolding parse_args split_words
parse_args-words s tokens h e = rw (h, parse_args) (rw (e, parse_args) refl)

-- What parsing of "--name=value" comes to, with the value quoted.
pub parse_args-named :
    (n w : String)
    → is_flag_name n ≡ true
    → parse_args (some ("--" <> (n <> ("=" <> quote w))))
      ≡ some (record { positional = absent; named = (n, w) ∷ [] })
unfolding is_flag_name
parse_args-named n w h =
    ap (λ s. parse_args (some s))
      (after_dashes (n <> ("=" <> quote w))
        ∙ ap (λ r. String.◌∷◌ "-" (String.◌∷◌ "-" (n <> r))) (as_cons (quote w)))
    ∙ parse_args-words (flag_text n (quote w)) (flag_text n w ∷ [])
        (cons-nonempty "-" (String.◌∷◌ "-" (n <> String.◌∷◌ "=" (quote w))))
        (one_word n w (ground arith))
    ∙ last_given (flag_text n w) n w no_flags (word_of-name n w (ground arith) (ground arith))
    ∙ ap some (set_first n w (ground arith))

-- A text flag that differs between the node and the role's flags gives one `tailscale set`
-- argument; the parser of the role's flags reads it as that flag alone, with the wanted value,
-- whatever characters the value has.
pub parse_args-text_problem :
    (f : StringFlag) (have want : String)
    → is_flag_name f.flag ≡ true
    → (have == want) ≡ false
    → map (λ (p : Problem). parse_args p.arg) (text_problem f have want)
      ≡ some (record { positional = absent; named = (f.flag, want) ∷ [] }) ∷ []
unfolding text_problem
parse_args-text_problem f have want h d = rw d (ap (λ x. x ∷ []) (parse_args-named f.flag want h))
