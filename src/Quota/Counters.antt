-- ===== src/Quota/Counters.antt =====
-- Which counter an operation counts up.
use ironbucket.Base.{ℕ, ◌+◌, ◌%◌, ◌^◌, ◌≡◌, refl, ◌⊎◌, inl, inr}
use ironbucket.Quota.{
  BucketStats, Operation, op_get, op_put, op_delete, op_list, op_head, op_multipart, increment,
}

-- The counter of an operation.
abbrev pub count_of : Operation → BucketStats → ℕ
count_of op_get s = s.get_count
count_of op_put s = s.put_count
count_of op_delete s = s.delete_count
count_of op_list s = s.list_count
count_of op_head s = s.head_count
count_of op_multipart s = s.multipart_count

pub increment-count_of :
    (operation : Operation) (s : BucketStats)
    → count_of operation (increment operation s) ≡ (count_of operation s + 1) % 2 ^ 64
unfolding increment
increment-count_of op_get s = refl
increment-count_of op_put s = refl
increment-count_of op_delete s = refl
increment-count_of op_list s = refl
increment-count_of op_head s = refl
increment-count_of op_multipart s = refl

pub increment-count_of_other :
    (operation other : Operation) (s : BucketStats)
    → (count_of other (increment operation s) ≡ count_of other s) ⊎ (other ≡ operation)
unfolding increment
increment-count_of_other op_get op_get s = inr refl
increment-count_of_other op_get op_put s = inl refl
increment-count_of_other op_get op_delete s = inl refl
increment-count_of_other op_get op_list s = inl refl
increment-count_of_other op_get op_head s = inl refl
increment-count_of_other op_get op_multipart s = inl refl
increment-count_of_other op_put op_get s = inl refl
increment-count_of_other op_put op_put s = inr refl
increment-count_of_other op_put op_delete s = inl refl
increment-count_of_other op_put op_list s = inl refl
increment-count_of_other op_put op_head s = inl refl
increment-count_of_other op_put op_multipart s = inl refl
increment-count_of_other op_delete op_get s = inl refl
increment-count_of_other op_delete op_put s = inl refl
increment-count_of_other op_delete op_delete s = inr refl
increment-count_of_other op_delete op_list s = inl refl
increment-count_of_other op_delete op_head s = inl refl
increment-count_of_other op_delete op_multipart s = inl refl
increment-count_of_other op_list op_get s = inl refl
increment-count_of_other op_list op_put s = inl refl
increment-count_of_other op_list op_delete s = inl refl
increment-count_of_other op_list op_list s = inr refl
increment-count_of_other op_list op_head s = inl refl
increment-count_of_other op_list op_multipart s = inl refl
increment-count_of_other op_head op_get s = inl refl
increment-count_of_other op_head op_put s = inl refl
increment-count_of_other op_head op_delete s = inl refl
increment-count_of_other op_head op_list s = inl refl
increment-count_of_other op_head op_head s = inr refl
increment-count_of_other op_head op_multipart s = inl refl
increment-count_of_other op_multipart op_get s = inl refl
increment-count_of_other op_multipart op_put s = inl refl
increment-count_of_other op_multipart op_delete s = inl refl
increment-count_of_other op_multipart op_list s = inl refl
increment-count_of_other op_multipart op_head s = inl refl
increment-count_of_other op_multipart op_multipart s = inr refl
