-- ===== src/Api.antt =====
-- services/api/service.go and services/api/utils.go: the checks and decisions of the relay's HTTP
-- handlers, apart from the HTTP itself.
pub mod Forks
pub mod Equal
pub mod Submission
pub mod SlotDetails
pub mod Optimistic
pub mod Slot
pub mod Submit
pub mod GetPayload
pub mod GetHeader
pub mod Head
pub mod Registrations
pub mod Floor
