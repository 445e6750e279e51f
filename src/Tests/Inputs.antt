-- ===== src/Tests/Inputs.antt =====
-- UTF-8 as the tests take it.
use moksha.Base.{ℕ, Bool, true, false, ◌&&◌, [], ◌∷◌, Bytes, ltb, leb, if◌then◌else◌}
use moksha.Lexer.State.{Utf8}

abbrev continuation : Bytes → Bool
continuation [] = true
continuation (c ∷ cs) = leb 128 c && (ltb c 192 && continuation cs)

abbrev sequence_length : ℕ → ℕ
sequence_length c = if ltb c 192 then 1 else if ltb c 224 then 2 else if ltb c 240 then 3 else 4

abbrev legal : Bytes → Bool
legal [] = false
legal (c ∷ []) = ltb c 128
legal (c ∷ cs) = leb 194 c && (ltb c 245 && continuation cs)

-- UTF-8, without the tests for overlong forms and surrogates.
abbrev pub utf8 : Utf8
utf8 = record { num_bytes = sequence_length; is_legal = legal }
