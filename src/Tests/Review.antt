-- ===== src/Tests/Review.antt =====
-- The job that reviews users, on concrete tables.
use marzban.Common.{◌≡◌, refl, none, List, [], ◌∷◌, arith}
use marzban.Common.Int.{pos, ◌+ℤ◌, ◌-ℤ◌}
use marzban.User.{User}
use marzban.Table.{Rows}
use marzban.Jobs.Review.{review, plan_fires, hold_ends}
use marzban.Users.Update.{is_response}
use marzban.Users.Reset.{next_data_limit}
use marzban.Jobs.Review.Table.{Reviewed, review-Reviewed}
use marzban.Jobs.Review.Total.{IsReviewable, review-quiet}
use marzban.Jobs.Review.Reminders.{review-IsUnique}
use marzban.Reminder.Unique.{IsUnique}
use marzban.Tests.Samples.{context, world, alice, bob, carol, dave}

abbrev table : List User
table = alice ∷ bob ∷ carol ∷ dave ∷ []

runs : (review context table world).2 ≡ none
unfolding review ◌+ℤ◌ ◌-ℤ◌
runs = refl

review-Reviewed_example : Rows (Reviewed context.now) table (review context table world).0
review-Reviewed_example = review-Reviewed context table world runs

alice-IsReviewable : IsReviewable context alice
unfolding is_response plan_fires hold_ends
alice-IsReviewable = record { responds = refl; plan_works = λ a f. cc; hold_works = λ a h. cc }

bob-IsReviewable : IsReviewable context bob
unfolding is_response plan_fires hold_ends
bob-IsReviewable = record { responds = refl; plan_works = λ a f. cc; hold_works = λ a h. cc }

carol-IsReviewable : IsReviewable context carol
unfolding is_response plan_fires hold_ends
carol-IsReviewable = record {
  responds = refl;
  plan_works = λ a f. cc;
  hold_works = λ a h. (86400, refl, refl);
}

dave-IsReviewable : IsReviewable context dave
unfolding is_response plan_fires hold_ends next_data_limit ◌+ℤ◌ ◌-ℤ◌
dave-IsReviewable = record {
  responds = refl;
  plan_works = λ a f plan p. (pos 180, ground arith, ground arith, ground arith);
  hold_works = λ a h. cc;
}

review-quiet_example : (review context table world).2 ≡ none
review-quiet_example =
    review-quiet context table world
      (alice-IsReviewable, (bob-IsReviewable, (carol-IsReviewable, (dave-IsReviewable, tt))))

no_reminders : IsUnique []
no_reminders = record { at_most_one = λ u t n. omega arith }

review-IsUnique_example : IsUnique (review context table world).1.reminders
review-IsUnique_example = review-IsUnique context table world no_reminders
