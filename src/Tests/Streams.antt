-- ===== src/Tests/Streams.antt =====
-- The image writer over a flash that maps addresses to bytes.
use mathlib.Core.Path.{ap₂}
use roosterwake.Prelude.{
  ℕ, zero, suc, ◌+◌, ◌-◌, ◌≤◌, ◌≡◌, refl, ap, ◌∙◌, true, ◌&&◌, some, [], ◌∷◌, ◌++◌, ltb, leb,
  if◌then◌else◌, arith, replicate,
}
use roosterwake.Prelude.Bytes.{Bytes, byte_at, eq_bytes}
use roosterwake.Ota.Image.{ota_ok}
use roosterwake.Ota.Writer.{Writer, digest_update, program_page, fill, copy_loop, write_chunk}
use roosterwake.Ota.Writer.Stream.{IsFlash, Holds, Continues, write_chunk-Continues}

abbrev Cells : Type 0
Cells = ℕ → ℕ

unfoldable read_cells : Cells → ℕ → ℕ → Bytes
read_cells f a zero = []
read_cells f a (suc n) = f a ∷ read_cells f (suc a) n

unfoldable program_cells : Cells → ℕ → Bytes → Cells
program_cells f off page i = if leb off i && ltb i (off + 256) then byte_at page (i - off) else f i

abbrev erase_cells : Cells → ℕ → ℕ → Cells
erase_cells f off n i = 0xFF

before_cells :
    (f : Cells) (off : ℕ) (page : Bytes) (a n : ℕ)
    → a + n ≤ off
    → read_cells (program_cells f off page) a n ≡ read_cells f a n
unfolding read_cells program_cells
before_cells f off page a zero h = refl
before_cells f off page a (suc n) h =
    ap₂ ◌∷◌ (ground arith) (before_cells f off page (suc a) n (omega arith))

parts_cells :
    (f : Cells) (a m n : ℕ) → read_cells f a (m + n) ≡ read_cells f a m ++ read_cells f (a + m) n
unfolding read_cells
parts_cells f a zero n =
    let same : 0 + n ≡ n = omega arith in
    let here : a ≡ a + 0 = omega arith in ap (read_cells f a) same ∙ ap (λ b. read_cells f b n) here
parts_cells f a (suc m) n =
    let next : suc m + n ≡ suc (m + n) = omega arith in
    let there : suc a + m ≡ a + suc m = omega arith in
    ap (read_cells f a) next
    ∙ ap (◌∷◌ (f a))
        (parts_cells f (suc a) m n ∙ ap (λ b. read_cells f (suc a) m ++ read_cells f b n) there)

cells-IsFlash : IsFlash program_cells read_cells
cells-IsFlash = record { read_before = before_cells; read_parts = parts_cells }

abbrev collect : Bytes → Bytes → Bytes
collect seen bytes = seen ++ bytes

abbrev started : Writer Bytes
started = record {
  active = true;
  slot = 1;
  base = 4096;
  written = 0;
  total = 300;
  page = [];
  digest = record { sha = []; seen = 0 };
  expected = [];
}

abbrev blank : Cells
blank i = 0xFF

abbrev pieces : Bytes
pieces = replicate 260 7

pieces_accepted :
    (write_chunk erase_cells program_cells read_cells [] collect some started blank pieces).0
    ≡ ota_ok
unfolding write_chunk copy_loop fill program_page program_cells read_cells eq_bytes digest_update
pieces_accepted = refl

started-Holds : Holds erase_cells program_cells read_cells [] collect some blank started []
unfolding read_cells
started-Holds = record { stored = refl; counted = refl; paged = omega arith }

write_chunk-Continues_example :
    Continues erase_cells program_cells read_cells [] collect some
      ([] ++ pieces)
      (write_chunk erase_cells program_cells read_cells [] collect some started blank pieces)
write_chunk-Continues_example =
    write_chunk-Continues erase_cells program_cells read_cells [] collect some started blank pieces
      [] cells-IsFlash started-Holds (omega arith) (omega arith) (omega arith) pieces_accepted
