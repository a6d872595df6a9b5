-- ===== src/Tests/Texts.antt =====
-- Runs of the text functions.
use ansible_install.Prelude.{◌≡◌, refl, [], ◌∷◌}
use ansible_install.Prelude.Split.{split, lines, words, sorted}

lines_crlf : lines "a\r\n\nb\n" ≡ "a" ∷ "" ∷ "b" ∷ []
unfolding lines
lines_crlf = refl

words_spaces : words " ii  linux x\t" ≡ "ii" ∷ "linux" ∷ "x" ∷ []
unfolding words
words_spaces = refl

sorted_texts : sorted ("b" ∷ "ab" ∷ "a" ∷ []) ≡ "a" ∷ "ab" ∷ "b" ∷ []
unfolding sorted
sorted_texts = refl

split_commas : split b',' "a,,b" ≡ "a" ∷ "" ∷ "b" ∷ []
unfolding split
split_commas = refl
