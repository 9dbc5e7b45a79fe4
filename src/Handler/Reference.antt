-- ===== src/Handler/Reference.antt =====
-- An instance of the handler's libraries, small enough to run: doubles are numbers, the generator
-- counts, and the hash is the text itself.
use pow_server.Prelude.{
  ℕ, ◌+◌, ◌-◌, ◌*◌, ◌/◌, ◌%◌, ◌^◌, refl, [], ◌∷◌, ◌++◌, ltb, length, drop, arith,
}
use pow_server.Bigint.Reference
use pow_server.Multiplier.{Floats}
use pow_server.Job.{Job}
use pow_server.Json.Reference as JsonReference
use pow_server.Json.Reference.{Object}
use pow_server.Pow.{Sources}
use pow_server.Handler.{Libraries, CircularBuffer}

abbrev pub floats : Floats ℕ ℕ
floats = record {
  of_integer = λ n. n;
  of_double = λ n. n;
  quotient = λ a b. a / b;
  product = λ a b. a * b;
  to_double = λ f. f;
  to_integer = λ f. f % 256 ^ 16;
  positive = λ d. ltb 0 d;
  lit_zero = 0;
  lit_one = 1;
  lit_mock = 1;
  positive-lit_zero = refl;
  to_integer-lt = λ f. omega arith;
}

abbrev pub ring : CircularBuffer (Job ℕ)
ring = record {
  push_back = λ capacity xs x. drop (length xs + 1 - capacity) (xs ++ x ∷ []);
  push_back_lem = λ capacity xs x h. refl;
}

abbrev pub sources : Sources
sources = record { draw = λ i. i % 2 ^ 64; blake2b = λ bytes. bytes; draw-lt = λ i. omega arith }

abbrev pub lib : Libraries ℕ ℕ Object
lib = record {
  mp = Reference.reference;
  fl = floats;
  json = JsonReference.reference;
  ring = ring;
  sources = sources;
}
