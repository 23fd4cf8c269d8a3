-- ===== src/Witnesses/Buffers.antt =====
-- The theorems on the buffer and on the view that parsers have of it, applied to concrete values.
use lapin.Base.{
  ◌≡◌, refl, ◌↔◌, ◌<◌, ◌≤◌, true, none, some, List, [], ◌∷◌, length, take, max, ltb, arith,
}
use lapin.Buffer.{Buffer, grow, contents, consume}
use lapin.Buffer.Inv.{IsValid, grow-panics}
use lapin.Buffer.Run.{Use, written, read, consumed, use_all, queue_all, use_all-queue_all}
use lapin.Buffer.Bytes.{reserve_write_use}
use lapin.Buffer.Reserved.{generate, write_before, reserve_write_use_lem}
use lapin.Buffer.Grown.{grow-contents}
use lapin.Parsing.{
  ParsingContext, parsing_context, take_from, offset, iter, compare, matched, incomplete,
}
use lapin.Parsing.Offset.{consume-offset}
use lapin.Parsing.Prefix.{compare_lem}

-- Three bytes that wrap round: positions 3, 0 and 1 of four.
abbrev pub wrapped : Buffer
wrapped = record {
  memory = 5 ∷ 6 ∷ 0 ∷ 4 ∷ [];
  capacity = 4;
  position = 3;
  end = 2;
  available_data = 3;
}

pub wrapped-IsValid : IsValid wrapped
wrapped-IsValid = record {
  memory_size = refl;
  positive = omega arith;
  inside = omega arith;
  fits = omega arith;
  reaches = refl;
}

grow-panics_example : (grow 8 wrapped ≡ none) ↔ ((4 < 8) × (2 ≤ 3) × (0 < 3) × (2 < 4))
grow-panics_example = grow-panics 8 wrapped

abbrev uses : List Use
uses = written (7 ∷ 8 ∷ []) ∷ consumed 2 ∷ read (9 ∷ []) ∷ []

use_all-queue_all_example :
    (b : Buffer) × (use_all uses wrapped ≡ some (b, 1 ∷ 2 ∷ 1 ∷ []))
    × IsValid b
    × (contents b ≡ 6 ∷ 7 ∷ 9 ∷ [])
unfolding queue_all contents
use_all-queue_all_example = use_all-queue_all uses wrapped wrapped-IsValid

-- The bytes 4, 5 at the end of a memory of six.
abbrev pub at_end : Buffer
at_end = record {
  memory = 0 ∷ 0 ∷ 0 ∷ 0 ∷ 4 ∷ 5 ∷ [];
  capacity = 6;
  position = 4;
  end = 0;
  available_data = 2;
}

pub at_end-IsValid : IsValid at_end
at_end-IsValid = record {
  memory_size = refl;
  positive = omega arith;
  inside = omega arith;
  fits = omega arith;
  reaches = refl;
}

reserve_write_use_lem_example :
    (b : Buffer) × (reserve_write_use 1 (generate (7 ∷ 8 ∷ [])) (write_before (2 ∷ [])) at_end
      ≡ some b)
    × IsValid b
    × (contents b ≡ 4 ∷ 5 ∷ 2 ∷ 7 ∷ 8 ∷ [])
unfolding contents
reserve_write_use_lem_example =
    reserve_write_use_lem (2 ∷ []) (7 ∷ 8 ∷ []) at_end at_end-IsValid (omega arith) (omega arith)

abbrev larger : Buffer
larger = record wrapped { memory = 6 ∷ 6 ∷ 0 ∷ 4 ∷ 5 ∷ []; capacity = 5; end = 1 }

grow-contents_example :
    IsValid larger
    × (contents larger ≡ contents wrapped)
    × (larger.capacity ≡ max wrapped.capacity 5)
    × (true ≡ ltb wrapped.capacity 5)
unfolding grow
grow-contents_example = grow-contents 5 wrapped larger true wrapped-IsValid refl

consume-offset_example :
    (rest : ParsingContext) × (b : Buffer) × (take_from 2 (parsing_context wrapped) ≡ some rest)
    × (consume (offset 1000 rest wrapped) wrapped ≡ some (b, 2))
    × IsValid b
    × (contents b ≡ iter rest)
consume-offset_example = consume-offset 1000 2 wrapped wrapped-IsValid (omega arith) (omega arith)

abbrev view : ParsingContext
view = record {
  first = record { start = 3; bytes = 4 ∷ [] };
  second = record { start = 0; bytes = 5 ∷ 6 ∷ [] };
}

compare_lem_example :
    ((compare (4 ∷ 5 ∷ []) view ≡ matched)
      ↔ ((2 ≤ length (iter view)) × (take 2 (iter view) ≡ 4 ∷ 5 ∷ [])))
    × ((compare (4 ∷ 5 ∷ []) view ≡ incomplete)
        ↔ ((length (iter view) < 2) × (take (length (iter view)) (4 ∷ 5 ∷ []) ≡ iter view)))
compare_lem_example = compare_lem (4 ∷ 5 ∷ []) view
