-- ===== src/Aws.antt =====
-- packages/natricine-aws: messages in the queues of SQS and on the topics of SNS.
pub mod Marshaling
pub mod Sqs
pub mod Sns
mod Examples
