-- ===== src/Fs/Name.antt =====
-- kernel/fs.c: file names. `next_name` takes the next one off a path, `fat_name_cmp` compares one with
-- the 8.3 name of a directory entry.

use fi_rststep.Prelude.{
  ℕ, zero, suc, ◌+◌, ◌-◌, Bool, true, false, not, ◌&&◌, List, [], ◌∷◌, ◌==◌, leb, if◌then◌else◌,
}
use fi_rststep.Prelude.Outcome.{Outcome, ok, panic}
use fi_rststep.Ata.{Bytes}
use fi_rststep.Fs.{DirEntry}

abbrev pub filename_max_length : ℕ
filename_max_length = 12

abbrev pub blank : ℕ
blank = b' '

abbrev pub path_separator : ℕ
path_separator = b'/'

unfoldable pub toupper : ℕ → ℕ
toupper c = if leb b'a' c && leb c b'z' then c - 32 else c

-- `while (**path == PATH_SEPARATOR)`
unfoldable pub skip_separators : List ℕ → List ℕ
skip_separators [] = []
skip_separators (c ∷ r) = if c == path_separator then skip_separators r else c ∷ r

-- The `for` of `next_name`: `k` bytes are in `buf`, and each one more must fit the longest name.
unfoldable pub copy_name : ℕ → List ℕ → Bytes → Outcome (List ℕ × Bytes)
copy_name k [] buf = ok ([], λ j. if j == k then 0 else buf j)
copy_name k (c ∷ r) buf =
    let rest = copy_name (k + 1) r (λ j. if j == k then c else buf j) in
    if c == path_separator
    then ok (c ∷ r, λ j. if j == k then 0 else buf j)
    else (if leb (k + 1) filename_max_length then rest else panic)

-- the rest of the path and the buffer, which holds the name and a NUL
unfoldable pub next_name : List ℕ → Bytes → Outcome (List ℕ × Bytes)
next_name path buf = copy_name 0 (skip_separators path) buf

-- `while (n > 0 && field[n - 1] == BLANK) --n;`
unfoldable pub trim : ℕ → Bytes → ℕ
trim zero field = 0
trim (suc n) field = let rest = trim n field in if field n == blank then rest else suc n

-- the comparison loops: `left` places from `i` on agree, capitals aside
unfoldable pub agree : ℕ → ℕ → Bytes → Bytes → Bool
agree zero i field name = true
agree (suc left) i field name =
    let rest = agree left (i + 1) field name in
    if toupper (field i) == toupper (name i) then rest else false

-- `name + n`
abbrev pub from : ℕ → Bytes → Bytes
from n name i = name (n + i)

-- whether 0 is returned (else -1)
unfoldable pub fat_name_cmp : DirEntry → Bytes → Bool
fat_name_cmp entry name =
    let namel = trim 8 entry.name in
    let extl = trim 3 entry.ext in
    if not (agree namel 0 entry.name name)
    then false
    else (if extl == 0
        then from namel name 0 == 0
        else (if not (from namel name 0 == b'.')
            then false
            else (if not (agree extl 0 entry.ext (from (namel + 1) name))
                then false
                else from (namel + 1 + extl) name 0 == 0)))
