-- ===== src/Social.antt =====
-- services/api/repositories/social.py: friendships, invites, recommendations, pick rooms, clubs and challenges.
pub mod Friendships
pub mod Invites
pub mod Network
pub mod Recommendations
pub mod PickRooms
pub mod Clubs
pub mod Challenges
