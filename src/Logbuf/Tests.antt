-- ===== src/Logbuf/Tests.antt =====
-- A ring of three entries that has been given four.
use mathlib.Core.List.{reverse}
use nzb_indexer.Base.{◌≡◌, refl, none, some, List, [], ◌∷◌, pos}
use nzb_indexer.Logbuf.{
  Entry, Buffer, new_buffer, add, subscribe, cancel, level_value, ordered, walk, recent,
}
use nzb_indexer.Logbuf.Ring.{keep_newest}
use nzb_indexer.Logbuf.Recent.{shown, at_most, add_all, recent_lem}

abbrev info : Entry
info = record { time = 1; level = "INFO"; message = "one"; attrs = [] }

abbrev warn : Entry
warn = record { time = 2; level = "WARN"; message = "two"; attrs = [] }

abbrev debug : Entry
debug = record { time = 3; level = "DEBUG"; message = "three"; attrs = [] }

abbrev error : Entry
error = record { time = 4; level = "ERROR+1"; message = "four"; attrs = [] }

abbrev log : List Entry
log = info ∷ warn ∷ debug ∷ error ∷ []

abbrev small : Buffer
small = new_buffer (pos 3)

program : Unit {0}
unfolding new_buffer add subscribe cancel level_value ordered walk recent add_all
program = tt

from_warn : recent (add_all small log) (pos 10) (some (pos 4)) ≡ error ∷ warn ∷ []
unfolding program
from_warn = refl

recent_lem_example :
    recent (add_all small log) (pos 2) none
    ≡ at_most (pos 2) (shown none (reverse (keep_newest small.cap log)))
recent_lem_example = recent_lem (pos 3) (pos 2) none log
