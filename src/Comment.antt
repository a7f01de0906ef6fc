-- ===== src/Comment.antt =====
-- app/comment_answer: answers to replies on a review comment.
pub mod Schema
pub mod Answer
