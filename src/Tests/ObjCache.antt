-- ===== src/Tests/ObjCache.antt =====
-- pkg/objcache on a small cache.
use minio.Base.{◌+◌, ◌≡◌, refl, false, List, [], ◌∷◌, some, arith}
use minio.Base.Int.{pos}
use minio.Base.Text.{Text, codes, text_discrete}
use minio.Base.Assoc.{get, put}
use minio.ObjCache.{
  Bytes, Cache, Writer, new, create, write, close, saved, store, open_key, gc, delete_key,
}
use minio.ObjCache.Accounting.{
  Accounted, here, next, creates, closes, held, replaced, close-drift, new-Accounted,
}
use minio.ObjCache.Contents.{write_all, concat, open_key-close}

program : Unit {0}
unfolding new create write close store open_key gc delete_key write_all get put text_discrete
program = tt

abbrev empty : Cache
empty = record {
  max_size = 100;
  max_cache_entry_size = 10;
  current_size = 0;
  total_evicted = 0;
  entries = [];
  expiry = 50;
  lowered_gc = false;
}

starts : new 100 50 ≡ some empty
unfolding program
starts = refl

abbrev blank : Writer
blank = record { offset = 0; cap = 3; buffer = 0 ∷ 0 ∷ 0 ∷ [] }

abbrev full : Writer
full = record { offset = 3; cap = 3; buffer = 7 ∷ 8 ∷ 9 ∷ [] }

abbrev chunks : List Bytes
chunks = (7 ∷ []) ∷ (8 ∷ 9 ∷ []) ∷ []

created : create empty (pos 3) ≡ (empty, some blank)
unfolding program
created = refl

filled : write_all blank chunks ≡ some full
unfolding program
filled = refl

abbrev key : Text
key = codes "b/o"

abbrev one : Cache
one = record empty {
  entries = (key, record { value = 7 ∷ 8 ∷ 9 ∷ []; last_accessed = 20 }) ∷ [];
  current_size = 3;
}

abbrev two : Cache
two = record one {
  entries = (key, record { value = 7 ∷ 8 ∷ 9 ∷ []; last_accessed = 30 }) ∷ [];
  current_size = 6;
}

closed : close empty key 3 full 20 ≡ saved one
unfolding program
closed = refl

-- The same key saved again: three bytes are held and six are accounted for.
closed_again : close one key 3 full 30 ≡ saved two
unfolding program
closed_again = refl

open_key-close_example : (open_key one key 15 40).1 ≡ some (concat chunks)
open_key-close_example =
    open_key-close empty empty 3 blank full chunks created filled empty one key 20 15 40 closed
      (omega arith)

close-drift_example : two.current_size + held one ≡ held two + one.current_size + replaced key one
close-drift_example = close-drift one two key 3 30 full refl (omega arith) closed_again

new-Accounted_example : Accounted two
unfolding create
new-Accounted_example = new-Accounted 100 50 starts (
    next (next (next here (creates empty (pos 3))) (closes key 3 20 full refl (omega arith) closed))
      (closes key 3 30 full refl (omega arith) closed_again))
