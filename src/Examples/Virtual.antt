-- ===== src/Examples/Virtual.antt =====
-- kernel/mem.c on a concrete memory.
use fi_rststep.Prelude.{ℕ, ◌≡◌, ◌≢◌, inl, inr, refl, [], ◌∷◌, arith, true}
use fi_rststep.Prelude.Outcome.{ok, panic}
use fi_rststep.Pmu.Chain.{has_page}
use fi_rststep.Examples.Memory.{three_pages, three_pages-IsPmu}
use fi_rststep.Paging.{Vm, create_user_page_dir, map_physical_page, map_physical_page_to_linear}
use fi_rststep.Paging.Walk.{IsSpace}
use fi_rststep.Paging.Map.{IsMapped, map_physical_page_to_linear-IsMapped}
use fi_rststep.Paging.FirstFit.{
  IsLowest, map_physical_page-IsLowest, map_physical_page_to_linear-panic,
}
use fi_rststep.Paging.Create.{IsUserDir, create_user_page_dir-IsUserDir}

-- an empty memory with three free pages
abbrev empty_memory : Vm
empty_memory = record {
  mem = λ a. 0;
  pmu = three_pages;
  cr3 = 0x200000;
  kernel_page_dir = 0x200000;
  end_index = 1;
}

empty_memory-IsSpace : IsSpace empty_memory 0x200000 ((1, 0x10000, 3) ∷ [])
empty_memory-IsSpace = record {
  free = three_pages-IsPmu;
  aligned = refl;
  own = refl;
  tables = λ i h p. absurd (omega arith);
  apart = λ i j h k p q e. absurd (omega arith);
}

map_physical_page_to_linear-IsMapped_example :
    (s' : Vm) × (map_physical_page_to_linear 0x200000 0x30000 0x800000 1 1 empty_memory ≡ ok s')
    × IsMapped empty_memory s' 0x200000 0x800000 0x30000 1 1
map_physical_page_to_linear-IsMapped_example =
    map_physical_page_to_linear-IsMapped empty_memory 0x200000 0x30000 0x800000 1 1 (1, 0x10000, 3)
      [] empty_memory-IsSpace (λ e. omega arith) (λ e. omega arith) refl (omega arith)
      (λ e. omega arith) (omega arith) (omega arith) refl

map_physical_page-IsLowest_example :
    (linear : ℕ) × (s' : Vm) × (map_physical_page 0x200000 0x30000 1 1 empty_memory
      ≡ ok (linear, s'))
    × IsLowest empty_memory 0x200000 1 linear
    × IsMapped empty_memory s' 0x200000 linear 0x30000 1 1
map_physical_page-IsLowest_example =
    map_physical_page-IsLowest empty_memory 0x200000 0x30000 1 1 0x800000 (1, 0x10000, 3) []
      empty_memory-IsSpace (λ e. omega arith) (λ e. omega arith) refl (omega arith) (omega arith)
      (omega arith) refl

map_physical_page_to_linear-panic_example :
    map_physical_page_to_linear 0x200000 0x30000 0x3ff000 1 1 empty_memory ≡ panic
map_physical_page_to_linear-panic_example =
    map_physical_page_to_linear-panic empty_memory 0x200000 0x30000 0x3ff000 1 1
      (inr (inr (inr (inl (omega arith)))))

create_user_page_dir-IsUserDir_example :
    (dir : ℕ) × (s' : Vm) × (create_user_page_dir empty_memory ≡ ok (dir, s'))
    × (dir ≢ 0)
    × (has_page dir ((1, 0x10000, 3) ∷ []) ≡ true)
    × IsUserDir empty_memory s' dir
create_user_page_dir-IsUserDir_example =
    create_user_page_dir-IsUserDir empty_memory (1, 0x10000, 3) [] empty_memory-IsSpace
      (λ a. omega arith) (omega arith)
