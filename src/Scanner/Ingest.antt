-- ===== src/Scanner/Ingest.antt =====
-- internal/scanner/scanner.go, ingestRangeTracked: one batch of headers becomes parts. Article
-- numbers and instants are natural numbers; a zero time is `none`. The subject parser is a parameter.
mod Parts
mod Tests
use Prim.Native.String.{String}
use text.Mathlib.Text.{◌==◌ as str_eq}
use nzb_indexer.Base.{
  ℕ, ◌+◌, Bool, true, false, Option, none, some, List, [], ◌∷◌, length, ltb, if◌then◌else◌,
}
use nzb_indexer.Nntp.Errors.{Error, wrap}

pub record Overview : Type 0 where
  pub article_number : ℕ
  pub subject : String
  pub poster : String
  pub date : Option ℕ
  pub message_id : String
  pub bytes : ℕ

pub record ParsedSubject : Type 0 where
  pub part_number : ℕ
  pub total_parts : ℕ
  pub normalized : String
  pub collection_key : String
  pub file_number : ℕ
  pub collection_files : ℕ

pub record PartInput : Type 0 where
  pub group_id : ℕ
  pub article_number : ℕ
  pub message_id : String
  pub subject : String
  pub poster : String
  pub posted_at : Option ℕ
  pub bytes : ℕ
  pub part_number : ℕ
  pub total_parts : ℕ
  pub norm_subject : String
  pub collection_key : String
  pub file_number : ℕ
  pub collection_files : ℕ

pub data Fetched : Type 0 where
  fetched : List Overview → Fetched
  fetch_failed : Error → Fetched

pub data Inserted : Type 0 where
  inserted : ℕ → Inserted
  insert_failed : Error → Inserted

-- The numbers pulled and inserted, the oldest posting time, and the error.
pub record Ingested : Type 0 where
  pub pulled : ℕ
  pub stored : ℕ
  pub oldest : Option ℕ
  pub failure : Option Error

-- `oldest.IsZero() || d.Before(oldest)`
abbrev pub older : Option ℕ → Option ℕ → Option ℕ
older none date = date
older (some t) none = some t
older (some t) (some d) = if ltb d t then some d else some t

module _ (parse_subject : String → ParsedSubject) where
  pub to_part : ℕ → Overview → PartInput
  to_part group_id ov =
      let ps = parse_subject ov.subject in
      record {
        group_id = group_id;
        article_number = ov.article_number;
        message_id = ov.message_id;
        subject = ov.subject;
        poster = ov.poster;
        posted_at = ov.date;
        bytes = ov.bytes;
        part_number = ps.part_number;
        total_parts = ps.total_parts;
        norm_subject = ps.normalized;
        collection_key = ps.collection_key;
        file_number = ps.file_number;
        collection_files = ps.collection_files;
      }

  -- The loop over the overviews, with `oldest` so far; an article without a message id is skipped.
  unfoldable pub to_parts : ℕ → List Overview → Option ℕ → List PartInput × Option ℕ
  unfolding to_part
  to_parts group_id [] oldest = ([], oldest)
  to_parts group_id (ov ∷ ovs) oldest =
      let skip = str_eq ov.message_id "" in
      let (parts, last) = to_parts group_id ovs (if skip then oldest else older oldest ov.date) in
      (if skip then parts else to_part group_id ov ∷ parts, last)

  abbrev report : ℕ → Option ℕ → Inserted → Ingested
  report pulled oldest (inserted n) = record {
    pulled = pulled;
    stored = n;
    oldest = oldest;
    failure = none;
  }
  report pulled oldest (insert_failed err) = record {
    pulled = pulled;
    stored = 0;
    oldest = oldest;
    failure = some err;
  }

  -- The batch, from the server's answer and the store's.
  unfoldable pub ingest_range_tracked : ℕ → Fetched → (List PartInput → Inserted) → Ingested
  ingest_range_tracked group_id (fetch_failed err) insert_parts = record {
    pulled = 0;
    stored = 0;
    oldest = none;
    failure = some (wrap err);
  }
  ingest_range_tracked group_id (fetched []) insert_parts = record {
    pulled = 0;
    stored = 0;
    oldest = none;
    failure = none;
  }
  ingest_range_tracked group_id (fetched (ov ∷ ovs)) insert_parts =
      let (parts, oldest) = to_parts group_id (ov ∷ ovs) none in
      report (length (ov ∷ ovs)) oldest (insert_parts parts)
