-- ===== src/Nntp/Errors/Tests.antt =====
-- Runs of the classification, and the theorems at concrete errors.
use nzb_indexer.Base.{◌≡◌, refl, some}
use nzb_indexer.Nntp.Errors.{
  proto, wrap, join, canceled, no_conns, classify_error, retention, connection,
}

wrapped_430 : classify_error (some (wrap (proto 430))) ≡ retention
unfolding classify_error
wrapped_430 = refl

joined : classify_error (some (join no_conns canceled)) ≡ connection
unfolding classify_error
joined = refl
