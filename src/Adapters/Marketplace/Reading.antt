-- ===== src/Adapters/Marketplace/Reading.antt =====
-- packages/adapters/src/prisma-marketplace.ts: what the profile and discussion repositories return
-- of a row.
use nitip_cuy.Prelude.{Bool, Option, none, some}
use nitip_cuy.Failure.{Result, ok, err, ◌>>=◌}
use nitip_cuy.Platform.{Platform}
use nitip_cuy.Domain.Trip.{trip_id}
use nitip_cuy.Domain.Account.{account_id, jastipper_profile_id}
use nitip_cuy.Application.Marketplace.Repositories.{
  JastipperProfileRecord, PublicDiscussionEntry, StoredPublicQuestion,
}
use nitip_cuy.Adapters.Marketplace.{ProfileRow, QuestionRow, AnswerRow}

abbrev pub option_map : {A B : Type 0} → (A → Result B) → Option A → Result (Option B)
option_map f none = ok none
option_map f (some a) = elim (f a) [ err error ↦ err error | ok b ↦ ok (some b) ]

-- `mapProfile`
unfoldable pub map_profile : Platform → ProfileRow → Result JastipperProfileRecord
map_profile p row = do
  owner ← account_id p row.account_id
  id ← jastipper_profile_id p row.id
  ok (record { id = id; account_id = owner; terms = row.terms; is_active = row.is_active })

unfoldable pub map_answer : Platform → AnswerRow → Result (PublicDiscussionEntry × Bool)
map_answer p row = do
  author ← account_id p row.author_account_id
  ok (
    record {
      id = row.id;
      author_account_id = author;
      author_display_name = row.author_display_name;
      message = row.message;
      created_at = p.to_iso_string row.created_at;
    },
    row.is_visible,
  )

-- What `findQuestionById` returns of a row and its answer.
unfoldable pub map_question :
    Platform → QuestionRow → Option AnswerRow → Result StoredPublicQuestion
unfolding map_answer
map_question p row answer_row = do
  author ← account_id p row.author_account_id
  trip ← trip_id p row.trip_id
  answer ← option_map (map_answer p) answer_row
  ok (record {
    entry = record {
      id = row.id;
      author_account_id = author;
      author_display_name = row.author_display_name;
      message = row.message;
      created_at = p.to_iso_string row.created_at;
    };
    trip_id = trip;
    is_visible = row.is_visible;
    answer = answer;
  })
